-- ===== src/Examples/Message/Safety.antt =====
-- `Message::parse` of examples/dbus/dbus-message.h on any bytes.
use firmir.Base.{
  ℕ, zero, suc, ◌+◌, ◌%◌, ◌≤◌, ◌<◌, ◌≡◌, refl, ap, arith, true, Option, none, some, List, [], ◌∷◌,
  length, ltb, leb, le→leb, ltb_false→le, Bool-cases, inl, inr, not, ◌||◌, ◌==◌,
}
use firmir.Dbus.Wire.{IsUint32, little, big, size_mod}
use firmir.Dbus.Message.Reader
use firmir.Dbus.Message.Reader.{Reader, out_of_bounds, bad_optional_access, out_of_fuel}
use firmir.Dbus.Message.Reader.Safety.{IsValid, IsAhead, IsAhead-IsValid, IsAhead-same}
use firmir.Dbus.Message.Header.{DynamicHeader}
use firmir.Dbus.Message.Header.Safety.{Gains, read_field-Gains}
use firmir.Examples.Reader.{
  Outcome, M, done, threw, overran, ◌>>=◌, align, seek, window, read_u32, read_array_bounds,
}
use firmir.Examples.Reader as E
use firmir.Examples.Reader.Agrees.{AgreesBy}
use firmir.Examples.Reader.Safety.{
  Finishes, Finishes-back, bind-Finishes, align-Finishes, seek-Finishes, read_u32-Finishes,
  read_u32-IsUint32, read_array_bounds-Finishes, read_array_bounds-start, read_u32-forward,
  read_array_bounds-forward, seek-pos,
}
use firmir.Examples.Message.{
  Message, parse_field, parse_fields, parse_body, parse_rest, parse_head, parse,
}
use firmir.Examples.Message.Fields.{header_of, Has, parse_field-Agrees}

-- And a result has taken a byte at least.
abbrev Advances : ℕ → Reader → Outcome Message → Type 0
Advances low r (done m r') = IsAhead r r' × (r.pos < r'.pos)
Advances low r o = Finishes low r o

Gains-Advances :
    (low : ℕ) (m : Message) (r : Reader) (x : Reader.Outcome (Option DynamicHeader))
    (y : Outcome Message)
    → Gains low r x
    → AgreesBy (Has m) x y
    → Advances low r y
Gains-Advances low m r (Reader.done (some a) r') (done b r'') w (p, q) = rw (← q) w
Gains-Advances low m r (Reader.done none r') (threw e) w h = tt
Gains-Advances low m r (Reader.stopped out_of_bounds) overran w h = w
Gains-Advances low m r (Reader.done (some a) r') (threw e) w h = absurd h
Gains-Advances low m r (Reader.done (some a) r') overran w h = absurd h
Gains-Advances low m r (Reader.done (some a) r') E.out_of_fuel w h = absurd h
Gains-Advances low m r (Reader.done none r') (done b r'') w h = absurd h
Gains-Advances low m r (Reader.done none r') overran w h = absurd h
Gains-Advances low m r (Reader.done none r') E.out_of_fuel w h = absurd h
Gains-Advances low m r (Reader.stopped out_of_bounds) (done b r'') w h = absurd h
Gains-Advances low m r (Reader.stopped out_of_bounds) (threw e) w h = absurd h
Gains-Advances low m r (Reader.stopped out_of_bounds) E.out_of_fuel w h = absurd h
Gains-Advances low m r (Reader.stopped bad_optional_access) y w h = absurd w
Gains-Advances low m r (Reader.stopped out_of_fuel) y w h = absurd w

parse_field-Advances :
    (low : ℕ) (m : Message) (r : Reader)
    → IsValid r
    → low ≤ r.pos
    → Advances low r (parse_field m r)
parse_field-Advances low m r v above =
    Gains-Advances low m r _ _ (read_field-Gains low (header_of m) r v above)
      (parse_field-Agrees m (header_of m) r v refl)

-- The rest of the loop behind a field.
more_Finishes :
    (low : ℕ) (g : Message → M Message) (r : Reader) (y : Outcome Message)
    → IsValid r
    → Advances low r y
    → ((m : Message) (r' : Reader) → IsAhead r r' → r.pos < r'.pos → Finishes low r' (g m r'))
    → Finishes low r (elim y [
      | done a r' ↦ g a r'
      | threw e ↦ threw e
      | overran ↦ overran
      | E.out_of_fuel ↦ E.out_of_fuel
    ])
more_Finishes low g r (done m r') v (a, l) k = Finishes-back low r r' _ v a (k m r' a l)
more_Finishes low g r (threw e) v a k = tt
more_Finishes low g r overran v a k = a
more_Finishes low g r E.out_of_fuel v a k = a

-- What is left of the buffer bounds the rounds.
parse_fields-Finishes :
    (low : ℕ) (fuel end : ℕ) (m : Message) (r : Reader)
    → IsValid r
    → low ≤ r.pos
    → length r.bytes < r.pos + fuel
    → Finishes low r (parse_fields fuel end m r)
unfolding parse_fields
parse_fields-Finishes low zero end m r v above l = absurd (omega (arith, v.placed.inside))
parse_fields-Finishes low (suc fuel) end m r v above l = elim (Bool-cases (ltb r.pos end)) [
  | inr f ↦ rw f (IsAhead-same r v)
  | inl t ↦ rw t (
      bind-Finishes low (align 8) _ r v (align-Finishes low r v) (λ a r' e w.
        let ahead : IsAhead r r' = rw e at (align-Finishes low r v) in
        elim (Bool-cases (ltb r'.pos end)) [
          | inr f ↦ rw f (IsAhead-same r' w)
          | inl u ↦ rw u (
              more_Finishes low (parse_fields fuel end) r' _ w
                (parse_field-Advances low m r' w (omega (arith, ahead.forward)))
                (λ m' r'' b n.
                  parse_fields-Finishes low fuel end m' r'' (IsAhead-IsValid r' r'' w b)
                    (omega (arith, ahead.forward, b.forward))
                    (omega (arith, ap length ahead.bytes, ap length b.bytes, ahead.forward))))
        ]))
]

parse_body-Finishes :
    (low : ℕ) (n : ℕ) (m : Message) (r : Reader)
    → IsValid r
    → IsUint32 n
    → Finishes low r (parse_body n m r)
unfolding parse_body window
parse_body-Finishes low n m r v h =
    bind-Finishes low (align 8) _ r v (align-Finishes low r v) (λ u r' e w.
      elim (Bool-cases (ltb (length r'.bytes) ((r'.pos + n) % size_mod))) [
        | inl t ↦ rw t tt
        | inr f ↦
            let fits : leb (r'.pos + n) (length r'.bytes) ≡ true =
              le→leb _ _ (omega (arith, ltb_false→le _ _ f, w.placed.inside, w.placed.small)) in
            rw (f, ◌>>=◌, fits) (IsAhead-same r' w)
      ])

parse_rest-Finishes :
    (m : Message) (r : Reader) → IsValid r → r.pos ≤ 4 → Finishes 16 r (parse_rest m r)
unfolding parse_rest
parse_rest-Finishes m r v h =
    bind-Finishes 16 (seek 4) _ r v (seek-Finishes 16 4 r v h) (λ u0 r0 e0 v0.
      bind-Finishes 16 read_u32 _ r0 v0 (read_u32-Finishes 16 r0 v0) (λ body_len r1 e1 v1.
        bind-Finishes 16 read_u32 _ r1 v1 (read_u32-Finishes 16 r1 v1) (λ serial r2 e2 v2.
          bind-Finishes 16 (read_array_bounds 8) _ r2 v2 (read_array_bounds-Finishes 16 r2 v2)
            (λ b r3 e3 v3.
              bind-Finishes 16 (seek b.0) _ r3 v3
                (seek-Finishes 16 b.0 r3 v3 (omega (arith, read_array_bounds-start 8 r2 r3 b e3)))
                (λ u4 r4 e4 v4.
                  bind-Finishes 16
                    (λ r. parse_fields (length r.bytes + 1) b.1 (record m { serial = serial }) r) _
                    r4 v4
                    (parse_fields-Finishes 16 _ b.1 _ r4 v4
                      (omega (
                        arith,
                        seek-pos 4 r r0 u0 e0,
                        read_u32-forward r0 r1 body_len v0 e1,
                        read_u32-forward r1 r2 serial v1 e2,
                        read_array_bounds-forward r2 r3 b v2 e3,
                        read_array_bounds-start 8 r2 r3 b e3,
                        seek-pos b.0 r3 r4 u4 e4,
                      ))
                      (omega arith))
                    (λ m' r5 e5 v5.
                      parse_body-Finishes 16 body_len m' r5 v5
                        (read_u32-IsUint32 r0 r1 body_len v0 e1)))))))

-- The reader that `parse` makes: it stands before all bytes, in the byte order of the first.
abbrev pub before : List ℕ → Reader
before [] = record { bytes = []; pos = 0; endian = little }
before (e ∷ rest) = record { bytes = e ∷ rest; pos = 0; endian = e }

parse_head-Finishes :
    (bytes : List ℕ)
    → 16 ≤ length bytes
    → IsValid (before bytes)
    → Finishes 16 (before bytes) (parse_head bytes)
parse_head-Finishes [] h v = absurd (omega arith)
parse_head-Finishes (e ∷ []) h v = absurd (omega arith)
parse_head-Finishes (e ∷ t ∷ []) h v = absurd (omega arith)
parse_head-Finishes (e ∷ t ∷ f ∷ []) h v = absurd (omega arith)
parse_head-Finishes (e ∷ t ∷ f ∷ vn ∷ rest) h v =
    elim (Bool-cases (not ((e == little) || (e == big)))) [
      | inl q ↦ rw q tt
      | inr q ↦ elim (Bool-cases (not (vn == 1))) [
        | inl p ↦ rw (q, p) tt
        | inr p ↦ rw (q, p) (parse_rest-Finishes _ _ v (omega arith))
      ]
    ]

-- On any bytes, fewer than 2 ^ 63, `parse` of the example terminates. It gives a message, with the
-- reader inside the same buffer, or throws one of its own exceptions; or it reads over the end of the
-- buffer, and then, behind its first 16 bytes, stand one behind the other the code of a field, the signature
-- of a string or of an object path, and a length of 2 ^ 32 - 1, over which the library's `readString`
-- leaves the buffer too.
pub parse-Finishes :
    (bytes : List ℕ) → IsValid (before bytes) → Finishes 16 (before bytes) (parse bytes)
unfolding parse
parse-Finishes bytes v = elim (Bool-cases (ltb (length bytes) 16)) [
  | inl t ↦ rw t tt
  | inr f ↦ rw f (parse_head-Finishes bytes (ltb_false→le _ _ f) v)
]
