-- ===== src/Examples/Message/Rounds.antt =====
-- The loop of `Message::parse` in examples/dbus/dbus-message.h against that of `DynamicHeader` in
-- dbus/message.cpp.
use firmir.Base.{
  ℕ, zero, suc, ◌≤◌, ◌<◌, ◌≡◌, refl, arith, true, false, Option, none, some, length, ltb,
  Bool-cases, inl, inr, le→leb,
}
use firmir.Dbus.Message.Layout.{up, le-up}
use firmir.Dbus.Message.Reader
use firmir.Dbus.Message.Reader.{Reader, out_of_bounds, bad_optional_access, out_of_fuel}
use firmir.Dbus.Message.Reader.Safety.{IsValid, IsAhead, IsAhead-IsValid, read_uint8-IsSafe}
use firmir.Dbus.Message.Header
use firmir.Dbus.Message.Header.{
  DynamicHeader, Field, s_sig, o_sig, g_sig, u_sig, path_field, interface_field, member_field,
  error_name_field, reply_serial_field, destination_field, sender_field, signature_field,
  unix_fds_field, read_value, read_field, read_fields,
}
use firmir.Examples.Reader.{
  Outcome, M, done, threw, overran, ◌>>=◌, DbusError, read_u8, read_u32, read_string,
  read_signature,
}
use firmir.Examples.Reader as E
use firmir.Examples.Reader.Agrees.{AgreesBy}
use firmir.Examples.Reader.Agreement.{align_lem}
use firmir.Examples.Message.{Message, parse_fields}
use firmir.Examples.Message.Fields.{Has, with_fields, parse_field-Agrees}

-- A valid header and the message that has its fields, the readers at the same place; a header that is
-- not valid and an exception; or both leave the buffer.
abbrev pub FieldsAgree : Message → Reader.Outcome DynamicHeader → Outcome Message → Type 0
FieldsAgree m (Reader.done h r) (done m' r') =
    (h.valid ≡ true) × ((m' ≡ with_fields h m) × (r ≡ r'))
FieldsAgree m (Reader.done h r) (threw e) = h.valid ≡ false
FieldsAgree m (Reader.stopped out_of_bounds) overran = Unit {0}
FieldsAgree m (Reader.stopped out_of_fuel) E.out_of_fuel = Unit {0}
FieldsAgree m _ _ = ⊥

-- The rest of the loop behind a field.
more_FieldsAgree :
    (m : Message) (h : DynamicHeader) (f : DynamicHeader → Reader.M DynamicHeader)
    (g : Message → M Message) (r : Reader) (x : Reader.Outcome (Option DynamicHeader))
    (y : Outcome Message)
    → h.valid ≡ false
    → Header.Safety.Gains 0 r x
    → AgreesBy (Has m) x y
    → ((h' : DynamicHeader) (r' : Reader)
        → h'.valid ≡ false
        → IsAhead r r'
        → FieldsAgree m (f h' r') (g (with_fields h' m) r'))
    → FieldsAgree m
        (elim x [
          | Reader.done a r' ↦
              (λ (o : Option DynamicHeader). elim o as (λ _. Reader.M DynamicHeader) [
                | none ↦ Reader.pure h
                | some h' ↦ f h'
              ])
                a r'
          | Reader.stopped s ↦ Reader.stopped s
        ])
        (elim y [
          | done a r' ↦ g a r'
          | threw e ↦ threw e
          | overran ↦ overran
          | E.out_of_fuel ↦ E.out_of_fuel
        ])
more_FieldsAgree m h f g r (Reader.done (some h') r') (done m' r'') i w ((p, q), e) k =
    rw (← e, p) (k h' r' q w.0)
more_FieldsAgree m h f g r (Reader.done none r') (threw e) i w a k = i
more_FieldsAgree m h f g r (Reader.stopped out_of_bounds) overran i w a k = tt
more_FieldsAgree m h f g r (Reader.done (some h') r') (threw e) i w a k = absurd a
more_FieldsAgree m h f g r (Reader.done (some h') r') overran i w a k = absurd a
more_FieldsAgree m h f g r (Reader.done (some h') r') E.out_of_fuel i w a k = absurd a
more_FieldsAgree m h f g r (Reader.done none r') (done m' r'') i w a k = absurd a
more_FieldsAgree m h f g r (Reader.done none r') overran i w a k = absurd a
more_FieldsAgree m h f g r (Reader.done none r') E.out_of_fuel i w a k = absurd a
more_FieldsAgree m h f g r (Reader.stopped out_of_bounds) (done m' r'') i w a k = absurd a
more_FieldsAgree m h f g r (Reader.stopped out_of_bounds) (threw e) i w a k = absurd a
more_FieldsAgree m h f g r (Reader.stopped out_of_bounds) E.out_of_fuel i w a k = absurd a
more_FieldsAgree m h f g r (Reader.stopped bad_optional_access) y i w a k = absurd a
more_FieldsAgree m h f g r (Reader.stopped out_of_fuel) y i w a k = absurd a

up_mono : (p q : ℕ) → p < q → up 8 p ≤ up 8 q
unfolding up
up_mono p q h = ground arith

-- On any bytes, fewer than 2 ^ 63, the loop over the header fields of examples/dbus/dbus-message.h does
-- what that of the library's `DynamicHeader` does, as long as the end of the fields, padded to eight
-- bytes, is inside the buffer: it gives a message exactly where the library gives a valid header, with
-- the same fields and the reader at the same place, it throws exactly where the library's header stays
-- invalid, and it reads over the end of the buffer exactly where the library does.
pub parse_fields-FieldsAgree :
    (m : Message) (fuel end : ℕ) (h : DynamicHeader) (r : Reader)
    → IsValid r
    → up 8 end ≤ length r.bytes
    → h.valid ≡ false
    → FieldsAgree m (read_fields fuel end h r) (parse_fields fuel end (with_fields h m) r)
unfolding read_fields parse_fields
parse_fields-FieldsAgree m zero end h r v le i = tt
parse_fields-FieldsAgree m (suc fuel) end h r v le i = elim (Bool-cases (ltb r.pos end)) [
  | inr f ↦ rw f (refl, (refl, refl))
  | inl t ↦
      let p = up 8 r.pos in
      let here : p ≤ length r.bytes = omega (arith, up_mono r.pos end (ground arith)) in
      let a : IsAhead r (record r { pos = p }) = record {
        bytes = refl;
        endian = refl;
        forward = le-up 8 r.pos (omega arith);
        inside = here;
      } in
      let w = IsAhead-IsValid r (record r { pos = p }) v a in
      elim (Bool-cases (ltb p end)) [
        | inr f ↦
            rw
              (
                t,
                Reader.Safety.align_lem 8 r v.placed (omega arith) (omega arith),
                align_lem 8 r v.placed (omega arith) (omega arith),
                le→leb _ _ here,
                ◌>>=◌,
                Reader.◌>>=◌,
                f,
              )
              (refl, (refl, refl))
        | inl u ↦
            rw
              (
                t,
                Reader.Safety.align_lem 8 r v.placed (omega arith) (omega arith),
                align_lem 8 r v.placed (omega arith) (omega arith),
                le→leb _ _ here,
                ◌>>=◌,
                Reader.◌>>=◌,
                u,
              )
              (more_FieldsAgree m h (read_fields fuel end) (parse_fields fuel end)
                (record r { pos = p }) _ _ i
                (Header.Safety.read_field-Gains 0 h (record r { pos = p }) w (omega arith))
                (parse_field-Agrees m h (record r { pos = p }) w i)
                (λ h' r' j b.
                  parse_fields-FieldsAgree m fuel end h' r' (IsAhead-IsValid _ r' w b)
                    (rw (b.bytes) le) j))
      ]
]
