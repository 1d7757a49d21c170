-- ===== src/Notify/Uses.antt =====
-- src/seccompy/notify.py: the methods of a `Listener` as one step, and the calls that they make.
use seccompy.Base.{ℕ, Bool, true, false}
use seccompy.Base.Int.{ℤ}
use seccompy.Errors.{Result, ok, err}
use seccompy.Kernel.{Host, Io, pure, lift, ◌>>=◌}
use seccompy.Notify.Listener.{Listener}
use seccompy.Notify.Listener

-- The methods, with their arguments.
pub data Use : Type 0 where
  fileno : Use
  recv : Use
  respond : ℤ → ℤ → ℤ → ℤ → Use
  addfd : ℤ → ℤ → ℤ → ℤ → ℤ → Use
  valid : ℤ → Use
  set_flags : ℤ → Use
  enter : Use
  copy : Use
  close : Use
  exit : Use
  del : Use

module _ (host : Host) (fuel : ℕ) where
  -- A method's call, with the listener after it where it does not raise.
  unfoldable pub step : Use → Listener → Io Listener
  unfolding Listener.recv Listener.respond Listener.addfd Listener.valid Listener.set_flags
      Listener.enter Listener.copy Listener.fileno Listener.exit Listener.del
  step fileno l = lift (Listener.fileno l) >>= λ fd. pure l
  step recv l = Listener.recv host fuel l >>= λ n. pure l
  step (respond id error val flags) l =
      Listener.respond host fuel l id error val flags >>= λ u. pure l
  step (addfd id fd flags newfd newfd_flags) l =
      Listener.addfd host fuel l id fd flags newfd newfd_flags >>= λ n. pure l
  step (valid id) l = Listener.valid host fuel l id >>= λ b. pure l
  step (set_flags flags) l = Listener.set_flags host fuel l flags >>= λ u. pure l
  step enter l = Listener.enter host l
  step copy l = lift (Listener.copy l)
  step close l = Listener.close_listener host l
  step exit l = Listener.exit host l
  step del l = Listener.del host l

-- The methods that close the descriptor.
abbrev pub is_closing : Use → Bool
is_closing close = true
is_closing exit = true
is_closing del = true
is_closing _ = false

-- The listener after a call, which is unchanged where it raised.
abbrev pub after : Listener → Result Listener → Listener
after l (ok l') = l'
after l (err e) = l
