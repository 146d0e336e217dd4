-- ===== src/Core/EventLoop/Singleton.antt =====
-- core/event-loop.cpp: `EventLoop::instance` and the two variables behind it.
use firmir.Base.{ℕ, ◌≡◌, refl, ◌⊎◌, inl, arith, Option, none, some, List, [], ◌∷◌}

-- `Singleton::value`, and `Singleton::extValue`: an optional pointer, which may be null. A loop is named
-- by its address.
pub record Variables : Type 0 where
  pub value : Option ℕ
  pub ext_value : Option (Option ℕ)

abbrev pub at_start : Variables
at_start = record { value = none; ext_value = none }

-- The constructor of `EventLoop`, for a loop at the address `p`.
abbrev pub construct_at : Option (Option ℕ) → ℕ → Variables → Variables
construct_at none p v = record v { ext_value = some (some p) }
construct_at (some q) p v = v

unfoldable pub construct : ℕ → Variables → Variables
construct p v = construct_at v.ext_value p v

-- The end of `instance`: a loop that is there already, or one that is made at the address `p`.
abbrev pub own_instance : Option ℕ → ℕ → Variables → ℕ × Variables
own_instance (some q) p v = (q, v)
own_instance none p v = (p, record (construct p v) { value = some p })

abbrev pub instance_from : Option (Option ℕ) → ℕ → Variables → ℕ × Variables
instance_from (some (some q)) p v = (q, v)
instance_from (some none) p v = own_instance v.value p v
instance_from none p v = own_instance v.value p (record v { ext_value = some none })

unfoldable pub get_instance : ℕ → Variables → ℕ × Variables
unfolding construct
get_instance p v = instance_from v.ext_value p v

-- The destructor of a loop at the address `p` deletes the private part, and leaves the variables.
unfoldable pub destruct : ℕ → Variables → Variables
destruct p v = v

-- What a program does with loops: it makes one, asks for the instance, or
-- ends one.
pub data Use : Type 0 where
  make ask end : ℕ → Use

unfoldable pub use_once : Use → Variables → Variables
use_once (make p) v = construct p v
use_once (ask p) v = (get_instance p v).1
use_once (end p) v = destruct p v

unfoldable pub use_all : List Use → Variables → Variables
use_all [] v = v
use_all (u ∷ us) v = use_all us (use_once u v)

-- The instance is `q` from now on.
Settled : ℕ → Variables → Type 0
Settled q v = (v.ext_value ≡ some (some q)) ⊎ ((v.ext_value ≡ some none) × (v.value ≡ some q))

construct-Settled : (q p : ℕ) (v : Variables) → Settled q v → Settled q (construct p v)
unfolding Settled construct
construct-Settled q p v h = ground arith

get_instance-Settled_again :
    (q p : ℕ) (v : Variables)
    → Settled q v
    → ((get_instance p v).0 ≡ q) × Settled q (get_instance p v).1
unfolding Settled get_instance
get_instance-Settled_again q p v h = ground arith

get_instance-Settled : (p : ℕ) (v : Variables) → Settled (get_instance p v).0 (get_instance p v).1
unfolding Settled get_instance
get_instance-Settled p v = ground arith

use_all-Settled : (q : ℕ) (us : List Use) (v : Variables) → Settled q v → Settled q (use_all us v)
unfolding use_all use_once destruct
use_all-Settled q [] v h = h
use_all-Settled q (make p ∷ us) v h =
    use_all-Settled q us (construct p v) (construct-Settled q p v h)
use_all-Settled q (ask p ∷ us) v h =
    use_all-Settled q us (get_instance p v).1 (get_instance-Settled_again q p v h).1
use_all-Settled q (end p ∷ us) v h = use_all-Settled q us (destruct p v) h

-- `instance` always gives the same address: what it gave once it gives again, whatever loops are made
-- and ended and however often it is asked in between, so also when the loop at that address was ended.
pub get_instance_stable :
    (p p' : ℕ) (v : Variables) (us : List Use)
    → (get_instance p' (use_all us (get_instance p v).1)).0 ≡ (get_instance p v).0
get_instance_stable p p' v us =
    (get_instance-Settled_again (get_instance p v).0 p' _
      (use_all-Settled _ us _ (get_instance-Settled p v))).0

-- The first loop that a program makes is the instance, if it has not asked for the instance before.
pub get_instance-construct :
    (p p' : ℕ) (us : List Use) → (get_instance p' (use_all us (construct p at_start))).0 ≡ p
unfolding construct Settled
get_instance-construct p p' us =
    (get_instance-Settled_again p p' _ (use_all-Settled p us _ (inl refl))).0
