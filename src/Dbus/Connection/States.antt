-- ===== src/Dbus/Connection/States.antt =====
-- `ConnectionPrivate::updateState` of dbus/connection.cpp.
use firmir.Base.{◌≡◌, arith, true, Bool-cases, inl, inr}
use firmir.Dbus.Connection.{State, same_state, System, update_state}

same_state-eq : (a b : State) → same_state a b ≡ true → a ≡ b
unfolding same_state
same_state-eq a b h = ground arith

pub update_state_lem :
    {W : Type 0} (v : State) (s : System W) → (update_state v s).connection.state ≡ v
unfolding update_state
update_state_lem v s = elim (Bool-cases (same_state s.connection.state v)) [
  | inl t ↦ rw t (same_state-eq s.connection.state v t)
  | inr f ↦ rw f
]
