-- ===== src/Examples/Reader/Agrees.antt =====
-- A run of the library's reader and one of the reader of examples/dbus/dbus-message.h, side by side.
use firmir.Base.{◌≡◌, refl, Option, none, some}
use firmir.Dbus.Message.Reader
use firmir.Dbus.Message.Reader.{Reader, out_of_bounds, bad_optional_access, out_of_fuel}
use firmir.Examples.Reader.{Outcome, M, done, threw, overran, ◌>>=◌, DbusError}
use firmir.Examples.Reader as E

-- Related values and the same place; or one has no value and the other throws; or both leave the
-- buffer.
abbrev pub AgreesBy :
    {A B : Type 0} → (A → B → Type 0) → Reader.Outcome (Option A) → Outcome B → Type 0
AgreesBy R (Reader.done (some a) r) (done b r') = R a b × (r ≡ r')
AgreesBy R (Reader.done none r) (threw e) = Unit {0}
AgreesBy R (Reader.stopped out_of_bounds) overran = Unit {0}
AgreesBy R _ _ = ⊥

abbrev pub Agrees : {A : Type 0} → Reader.Outcome (Option A) → Outcome A → Type 0
Agrees x y = AgreesBy (λ a b. a ≡ b) x y

module _ {A B C : Type 0} (R : B → C → Type 0) where
  continue_Agrees :
      (f : Option A → Reader.M (Option B)) (g : A → M C) (x : Reader.Outcome (Option A))
      (y : Outcome A)
      → Agrees x y
      → ((r : Reader) (e : DbusError) → AgreesBy R (f none r) (threw e))
      → ((a : A) (r : Reader) → x ≡ Reader.done (some a) r → AgreesBy R (f (some a) r) (g a r))
      → AgreesBy R
          (elim x [ Reader.done a r ↦ f a r | Reader.stopped s ↦ Reader.stopped s ])
          (elim y [
            | done a r ↦ g a r
            | threw e ↦ threw e
            | overran ↦ overran
            | E.out_of_fuel ↦ E.out_of_fuel
          ])
  continue_Agrees f g (Reader.done (some a) r) (done b r') (p, q) n k = rw (← p, ← q) (k a r refl)
  continue_Agrees f g (Reader.done none r) (threw e) h n k = n r e
  continue_Agrees f g (Reader.stopped out_of_bounds) overran h n k = tt
  continue_Agrees f g (Reader.done (some a) r) (threw e) h n k = absurd h
  continue_Agrees f g (Reader.done (some a) r) overran h n k = absurd h
  continue_Agrees f g (Reader.done (some a) r) E.out_of_fuel h n k = absurd h
  continue_Agrees f g (Reader.done none r) (done b r') h n k = absurd h
  continue_Agrees f g (Reader.done none r) overran h n k = absurd h
  continue_Agrees f g (Reader.done none r) E.out_of_fuel h n k = absurd h
  continue_Agrees f g (Reader.stopped out_of_bounds) (done b r') h n k = absurd h
  continue_Agrees f g (Reader.stopped out_of_bounds) (threw e) h n k = absurd h
  continue_Agrees f g (Reader.stopped out_of_bounds) E.out_of_fuel h n k = absurd h
  continue_Agrees f g (Reader.stopped bad_optional_access) y h n k = absurd h
  continue_Agrees f g (Reader.stopped out_of_fuel) y h n k = absurd h

  -- Code behind a read that agrees.
  pub bind-Agrees :
      (m : Reader.M (Option A)) (n : M A) (f : Option A → Reader.M (Option B)) (g : A → M C)
      (r : Reader)
      → Agrees (m r) (n r)
      → ((r' : Reader) (e : DbusError) → AgreesBy R (f none r') (threw e))
      → ((a : A) (r' : Reader)
          → m r ≡ Reader.done (some a) r'
          → AgreesBy R (f (some a) r') (g a r'))
      → AgreesBy R (Reader.◌>>=◌ m f r) ((n >>= g) r)
  bind-Agrees m n f g r h i k = continue_Agrees f g (m r) (n r) h i k
