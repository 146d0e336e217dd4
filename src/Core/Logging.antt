-- ===== src/Core/Logging.antt =====
-- core/firmir-logging.cpp and core/include/firmir/logging.h: what a logger writes to the two streams.
pub mod Streams
use firmir.Base.{Bool, true, false, Option, none, some, List, [], ◌∷◌, ◌++◌, ℕ, codes, same_bytes}

pub data Category : Type 0 where
  debug warning error info : Category

-- The two streams, and the `static` of `enabled`. What `getenv` returns for LOG_LEVEL is a parameter.
pub record Console : Type 0 where
  pub out : List ℕ
  pub err : List ℕ
  pub debug_enabled : Option Bool

abbrev pub is_debug_level : Option (List ℕ) → Bool
is_debug_level none = false
is_debug_level (some level) = same_bytes level (codes "Debug")

abbrev pub remembered : Option (List ℕ) → Console → Option Bool → Bool × Console
remembered env c (some b) = (b, c)
remembered env c none = let b = is_debug_level env in (b, record c { debug_enabled = some b })

unfoldable pub enabled : Option (List ℕ) → Category → Console → Bool × Console
enabled env debug c = remembered env c c.debug_enabled
enabled env warning c = (true, c)
enabled env error c = (true, c)
enabled env info c = (true, c)

unfoldable pub put : Category → List ℕ → Console → Console
put error s c = record c { err = c.err ++ s }
put debug s c = record c { out = c.out ++ s }
put warning s c = record c { out = c.out ++ s }
put info s c = record c { out = c.out ++ s }

-- The escape sequence `\033[…m`.
abbrev escape : List ℕ → List ℕ
escape s = 0x1b ∷ (b'[' ∷ (s ++ codes "m"))

unfoldable pub prefix_of : Category → List ℕ
prefix_of debug = codes "Debug: "
prefix_of warning = escape (codes "1") ++ codes "Warning: "
prefix_of error = escape (codes "1") ++ (escape (codes "31") ++ codes "Error: ")
prefix_of info = []

abbrev pub when_enabled : Category → List ℕ → Bool × Console → Console
when_enabled k s (true, c) = put k s c
when_enabled k s (false, c) = c

-- `m_stream << value << " "`.
abbrev pub spaced : List ℕ → List ℕ
spaced s = s ++ codes " "

-- The end of a colour, and of the line.
abbrev pub closing : List ℕ
closing = escape (codes "0") ++ (10 ∷ [])

-- The constructor, `<<` on a value that prints as `s`, and the destructor.
unfoldable pub begin : Option (List ℕ) → Category → Console → Console
begin env k c = when_enabled k (prefix_of k) (enabled env k c)

unfoldable pub write : Option (List ℕ) → Category → List ℕ → Console → Console
write env k s c = when_enabled k (spaced s) (enabled env k c)

unfoldable pub end : Option (List ℕ) → Category → Console → Console
end env k c = when_enabled k closing (enabled env k c)

unfoldable pub write_all : Option (List ℕ) → Category → List (List ℕ) → Console → Console
write_all env k [] c = c
write_all env k (s ∷ ss) c = write_all env k ss (write env k s c)

-- One statement `Category() << s << …;`
unfoldable pub log : Option (List ℕ) → Category → List (List ℕ) → Console → Console
log env k ss c = end env k (write_all env k ss (begin env k c))
