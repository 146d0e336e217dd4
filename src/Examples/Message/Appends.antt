-- ===== src/Examples/Message/Appends.antt =====
-- `Message::serialize` of examples/dbus/dbus-message.h: the bytes of the header fields.
use firmir.Base.{
  ap, ℕ, ◌<◌, ◌≡◌, refl, ◌∙◌, arith, inr, Option, none, some, List, [], ◌∷◌, ◌++◌, append-nil,
  append_assoc, length, length-append, All,
}
use firmir.Dbus.Message.Layout.{gap, short_text}
use firmir.Dbus.Message.Writer.{Writer}
use firmir.Dbus.Message.Header.{
  Field, s_sig, o_sig, g_sig, u_sig, path_field, interface_field, member_field, error_name_field,
  reply_serial_field, destination_field, sender_field, signature_field, unix_fds_field,
}
use firmir.Dbus.Message.Header.Entries.{
  Entry, object, string, number, types, Fits, value_bytes, entry_bytes, encode, optional,
  encode-append,
}
use firmir.Dbus.Message.Header.Appends.{IsWritable, entry_tail}
use firmir.Examples.Message.Fields.{header_of}
use firmir.Examples.Writer
use firmir.Examples.Writer.{append, Writing, ◌>=>◌, writes, write_u8, write_signature}
use firmir.Examples.Writer.Appends.{align_lem, write_u32_lem, write_string_lem, write_signature_lem}
use firmir.Examples.Message.{
  Message, if_set, write_text_field, write_string_field, write_object_path_field,
  write_signature_field, write_uint32_field, write_fields,
}

-- Its entries, in the order in which the source writes them.
abbrev pub entries : Message → List Entry
entries m =
    optional (object path_field) m.path
    ++ (optional (string interface_field) m.interface
        ++ (optional (string member_field) m.member
            ++ (optional (string error_name_field) m.error_name
                ++ (optional (number reply_serial_field) m.reply_serial
                    ++ (optional (string destination_field) m.destination
                        ++ (optional (string sender_field) m.sender
                            ++ (optional types m.signature
                                ++ optional (number unix_fds_field) m.unix_fds)))))))

-- The rest, behind code that throws nothing.
behind : (f g : Writing) (w w' : Writer) → f w ≡ some w' → (f >=> g) w ≡ g w'
behind f g w w' h = rw (◌>=>◌, h)

-- The code appends the bytes of the entries, and throws nothing.
record Writes (f : Writing) (xs : List Entry) : Type 0 where
  wrote : (w : Writer) → f w ≡ some (append w (encode w.endian (length w.bytes) xs))

infixl 5 ◌▷◌
◌▷◌ : {f g : Writing} {xs ys : List Entry} → Writes f xs → Writes g ys → Writes (f >=> g) (xs ++ ys)
◌▷◌ {f} {g} {xs} {ys} p q = record {
  wrote = λ w.
      let old = encode w.endian (length w.bytes) xs in
      let w' = append w old in
      behind f g w w' (p.wrote w)
      ∙ q.wrote w'
      ∙ rw (length-append w.bytes old, encode-append w.endian (length w.bytes) xs ys, append_assoc);
}

-- The head of an entry.
abbrev headed : Field → List ℕ → Writing
headed f sig = writes (λ w. write_u8 f (Writer.align 8 w)) >=> write_signature sig

headed_lem :
    (f : Field) (sig : List ℕ) (w : Writer)
    → length sig < 256
    → headed f sig w ≡ some (append w (gap 8 (length w.bytes) ++ (f ∷ short_text sig)))
unfolding write_u8
headed_lem f sig w h =
    rw
      (
        align_lem 8 w (inr refl),
        write_signature_lem sig (append (append w (gap 8 (length w.bytes))) (f ∷ [])) h,
      )
      (simp append_assoc)

one-Writes :
    (f : Writing) (x : Entry)
    → ((w : Writer) → f w ≡ some (append w (entry_bytes w.endian (length w.bytes) x)))
    → Writes f (x ∷ [])
unfolding encode
one-Writes f x h = record { wrote = λ w. rw append-nil (h w) }

if_set-Writes {ℓ} :
    {A : Type ℓ} (x : A → Entry) (f : A → Writing) (o : Option A)
    → ((a : A) → Fits (x a) → Writes (f a) (x a ∷ []))
    → All Fits (optional x o)
    → Writes (if_set o f) (optional x o)
unfolding encode
if_set-Writes x f none h k = record { wrote = λ w. rw append-nil refl }
if_set-Writes x f (some a) h k = h a k.0

object-Writes :
    (f : Field) (v : List ℕ)
    → Fits (object f v)
    → Writes (write_object_path_field f v) (object f v ∷ [])
unfolding write_object_path_field write_text_field value_bytes
object-Writes f v k = one-Writes _ (object f v) (λ w.
    behind (headed f o_sig) _ w _ (headed_lem f o_sig w (omega arith))
    ∙ ap some (write_string_lem v _ (omega arith) ∙ entry_tail (object f v) w))

string-Writes :
    (f : Field) (v : List ℕ) → Fits (string f v) → Writes (write_string_field f v) (string f v ∷ [])
unfolding write_string_field write_text_field value_bytes
string-Writes f v k = one-Writes _ (string f v) (λ w.
    behind (headed f s_sig) _ w _ (headed_lem f s_sig w (omega arith))
    ∙ ap some (write_string_lem v _ (omega arith) ∙ entry_tail (string f v) w))

number-Writes : (f : Field) (n : ℕ) → Writes (write_uint32_field f n) (number f n ∷ [])
unfolding write_uint32_field value_bytes
number-Writes f n = one-Writes _ (number f n) (λ w.
    behind (headed f u_sig) _ w _ (headed_lem f u_sig w (omega arith))
    ∙ ap some (write_u32_lem n _ ∙ entry_tail (number f n) w))

types-Writes :
    (v : List ℕ) → Fits (types v) → Writes (write_signature_field signature_field v) (types v ∷ [])
unfolding write_signature_field value_bytes
types-Writes v k = one-Writes _ (types v) (λ w.
    behind (headed signature_field g_sig) _ w _ (headed_lem signature_field g_sig w (omega arith))
    ∙ write_signature_lem v _ (omega arith)
    ∙ ap some (entry_tail (types v) w))

pub write_fields_lem :
    (m : Message) (w : Writer)
    → IsWritable (header_of m)
    → write_fields m w ≡ some (append w (encode w.endian (length w.bytes) (entries m)))
unfolding write_fields
write_fields_lem m w k =
    (if_set-Writes (object path_field) _ m.path (object-Writes path_field) k.path
        ▷ if_set-Writes (string interface_field) _ m.interface (string-Writes interface_field)
            k.interface
        ▷ if_set-Writes (string member_field) _ m.member (string-Writes member_field) k.member
        ▷ if_set-Writes (string error_name_field) _ m.error_name (string-Writes error_name_field)
            k.error_name
        ▷ if_set-Writes (number reply_serial_field) _ m.reply_serial
            (λ n _. number-Writes reply_serial_field n) k.reply_serial
        ▷ if_set-Writes (string destination_field) _ m.destination (string-Writes destination_field)
            k.destination
        ▷ if_set-Writes (string sender_field) _ m.sender (string-Writes sender_field) k.sender
        ▷ if_set-Writes types _ m.signature types-Writes k.signature
        ▷ if_set-Writes (number unix_fds_field) _ m.unix_fds (λ n _. number-Writes unix_fds_field n)
            k.unix_fds).wrote
      w
    ∙ ap (λ (xs : List Entry). some (append w (encode w.endian (length w.bytes) xs)))
        (simp append_assoc)
