-- ===== src/Dbus/Message/Printing.antt =====
-- dbus/message.cpp: `MessagePrivate::toString` and the printers of the enumerations.
use firmir.Base.{Option, none, some, List, [], ◌∷◌, ◌++◌, ◌==◌, ℕ, codes, if◌then◌else◌}
use firmir.Base.Decimal.{decimal}
use firmir.Dbus.Wire.{Endianness, little, big}
use firmir.Dbus.Message.Header.{
  MessageType, method_call, method_return, error, signal, Field, path_field, interface_field,
  member_field, error_name_field, reply_serial_field, destination_field, sender_field,
  signature_field, unix_fds_field,
}
use firmir.Dbus.Message.Private.{MessagePrivate, ReadFdRes, success, failure, would_block_res}

-- An enumeration whose byte is none of its names prints as `Unknown`.
unfoldable pub print_type : MessageType → List ℕ
print_type t =
    if t == method_call
    then codes "MethodCall"
    else if t == method_return
    then codes "MethodReturn"
    else if t == error
    then codes "Error"
    else if t == signal
    then codes "Signal"
    else codes "Unknown"

unfoldable pub print_read_fd_res : ReadFdRes → List ℕ
print_read_fd_res success = codes "Success"
print_read_fd_res failure = codes "Failure"
print_read_fd_res would_block_res = codes "WouldBlock"

unfoldable pub print_endianness : Endianness → List ℕ
print_endianness e =
    if e == little then codes "Little" else if e == big then codes "Big" else codes "Unknown"

unfoldable pub print_field : Field → List ℕ
print_field f =
    if f == path_field
    then codes "Path"
    else if f == interface_field
    then codes "Interface"
    else if f == member_field
    then codes "Member"
    else if f == error_name_field
    then codes "ErrorName"
    else if f == reply_serial_field
    then codes "ReplySerial"
    else if f == destination_field
    then codes "Destination"
    else if f == sender_field
    then codes "Sender"
    else if f == signature_field
    then codes "Signature"
    else if f == unix_fds_field
    then codes "UnixFDs"
    else codes "Unknown"

-- `res << name << value << std::endl`.
unfoldable pub line : List ℕ → List ℕ → List ℕ
line name value = name ++ (value ++ 10 ∷ [])

unfoldable pub line_if : List ℕ → Option (List ℕ) → List ℕ
unfolding line
line_if name none = []
line_if name (some value) = line name value

unfoldable pub number_if : List ℕ → Option ℕ → List ℕ
unfolding line decimal
number_if name none = []
number_if name (some n) = line name (decimal n)

unfoldable pub to_string : MessagePrivate → List ℕ
unfolding line line_if number_if print_type print_endianness decimal
to_string m =
    let h = m.fixed_header in
    let d = m.dynamic_header in
    line (codes "Message(") []
    ++ (line (codes " endian=") (print_endianness h.endian)
        ++ (line (codes " type=") (print_type h.type)
            ++ (line (codes " flags=") (decimal h.flags)
                ++ (line (codes " version=") (decimal h.version)
                    ++ (line (codes " bodyLen=") (decimal h.body_len)
                        ++ (line (codes " serial=") (decimal h.serial)
                            ++ (line (codes " fieldsLen=") (decimal h.fields_len)
                                ++ (line_if (codes " path=") d.path
                                    ++ (line_if (codes " interface=") d.interface
                                        ++ (line_if (codes " member=") d.member
                                            ++ (line_if (codes " errorName=") d.error_name
                                                ++ (number_if (codes " replySerial=") d.reply_serial
                                                    ++ (line_if (codes " destination=")
                                                          d.destination
                                                        ++ (line_if (codes " sender=") d.sender
                                                            ++ (line_if (codes " signature=")
                                                            d.signature
                                                            ++ (number_if (codes " unixFds=")
                                                            d.unix_fds
                                                            ++ line (codes ")") []))))))))))))))))
