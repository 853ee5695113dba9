-- ===== src/Ident/Tests.antt =====
-- Runs and instances for cmd/lierc-identd/main.go.
use lierc.Base.{Bool, true, [], ◌∷◌, ◌≡◌, refl, some, Text, text, text_eq, arith, All, cut}
use lierc.Unicode.{trim_space}
use lierc.Unicode.Ascii.{ascii, ascii-IsUnicode, to_lower, to_upper}
use lierc.Strconv.{digits, is_digit, all_digits, pos, atoi, itoa}
use lierc.Strconv.Decimal.{atoi-digits}
use lierc.Ident.{
  port_in_range, Found, found, Fetched, ports, parse_port, clean_user, reply, lookup, cleaned,
  answer,
}
use lierc.Ident.Reply.{IsLine, reply-IsLine}
use lierc.Ident.Lookup.{HasNone, lookup-no_user}
use lierc.Ident.Server.{line, ends, handle, handle-All}

abbrev find_ann : Text → Text → Found
find_ann local remote = found (text "a:nn\n")

reply_run : reply (text " 6667 , 00113") find_ann ≡ text "6667, 113 : USERID : UNIX : ann\n"
unfolding reply cut parse_port port_in_range trim_space atoi itoa all_digits is_digit cleaned answer
    clean_user to_lower to_upper text_eq
reply_run = refl

reply-IsLine_example : IsLine (reply (text "1, 2") find_ann)
reply-IsLine_example = reply-IsLine ascii-IsUnicode (text "1, 2") find_ann

abbrev portmap : Text → Fetched
portmap url = ports ((text "ann" ∷ text "50" ∷ text "6667" ∷ []) ∷ [])

abbrev any_ip : Text → Bool
any_ip ip = true

lookup-no_user_example : All (HasNone portmap any_ip (text "51") (text "6667")) (text "main" ∷ [])
unfolding lookup text_eq
lookup-no_user_example =
    lookup-no_user portmap any_ip (text "51") (text "6667") (text "main" ∷ []) [] refl

handle-All_example : All IsLine (handle find_ann (line (text "1,2\r\n") true ∷ ends ∷ []))
handle-All_example =
    (handle-All ascii-IsUnicode find_ann (line (text "1,2\r\n") true ∷ ends ∷ [])).0

atoi-digits_example : atoi (digits 6667) ≡ some (pos 6667)
atoi-digits_example = atoi-digits 6667 (omega arith)
