-- ===== src/Ident.antt =====
-- cmd/lierc-identd/main.go: the ident server, which tells an IRC server the user behind a connection.
pub mod Port
pub mod Fetch
pub mod User
pub mod Reply
pub mod Lookup
pub mod Server
mod Tests
use lierc.Base.{
  ℕ, zero, suc, ◌+◌, Bool, true, false, not, ◌&&◌, ◌||◌, List, [], ◌∷◌, ◌++◌, Option, none, some,
  ltb, leb, ◌==◌, if◌then◌else◌, Text, text, text_eq, cut, is_nil, length, take,
}
use lierc.Unicode.{Unicode, trim_space, trim_right}
use lierc.Strconv.{ℤ, pos, negsuc, itoa, all_digits, atoi}

abbrev pub max_conns : ℕ
max_conns = 200

abbrev pub max_queries : ℕ
max_queries = 10

abbrev pub max_user_len : ℕ
max_user_len = 64

-- What a lookup returns: the user, errNoUser, or another error.
pub data Found : Type 0 where
  found : Text → Found
  no_user : Found
  failed : Found

-- n < 1 || n > 65535, and strconv.Itoa(n)
unfoldable pub port_in_range : ℤ → Option Text
port_in_range (negsuc n) = none
port_in_range (pos n) = if ltb n 1 || ltb 65535 n then none else some (itoa (pos n))

-- strings.Trim(s, "0123456789") != "" says that s is not all digits.
unfoldable pub port_of_trimmed : Text → Option Text
port_of_trimmed s =
    if is_nil s || not (all_digits s)
    then none
    else elim (atoi s) [ none ↦ none | some n ↦ port_in_range n ]

abbrev pub invalid_reply : Text
invalid_reply = text "0, 0 : ERROR : INVALID-PORT\n"

-- fmt.Sprintf("%s, %s : ...\n")
abbrev pub about : Text → Text → Text → Text
about local remote what = local ++ (text ", " ++ (remote ++ (text " : " ++ (what ++ text "\n"))))

module _ ⦃u : Unicode⦄ where
  unfoldable pub parse_port : Text → Option Text
  unfolding port_of_trimmed
  parse_port s = port_of_trimmed (trim_space s)

  -- A rune that cleanUser leaves out.
  abbrev pub dropped : ℕ → Bool
  dropped r = not (u.is_print r) || (u.is_space r || r == b':')

  -- The loop of cleanUser, with the number of runes written so far.
  unfoldable pub clean_runes : ℕ → List ℕ → List ℕ
  clean_runes n [] = []
  clean_runes n (r ∷ rs) =
      let skip = clean_runes n rs in
      let write = clean_runes (n + 1) rs in
      if n == max_user_len then [] else if dropped r then skip else r ∷ write

  unfoldable pub clean_user : Text → Text
  unfolding clean_runes
  clean_user user = u.of_runes (clean_runes 0 (u.runes user))

  -- An empty user is no user.
  unfoldable pub cleaned : Found → Found
  cleaned (found user) = if is_nil (clean_user user) then no_user else found (clean_user user)
  cleaned no_user = no_user
  cleaned failed = failed

  unfoldable pub answer : Text → Text → Found → Text
  answer local remote (found user) = about local remote (text "USERID : UNIX : " ++ user)
  answer local remote no_user = about local remote (text "ERROR : NO-USER")
  answer local remote failed = about local remote (text "ERROR : UNKNOWN-ERROR")

  unfoldable pub reply : Text → (Text → Text → Found) → Text
  reply line find = elim (cut b',' line) [
    | none ↦ invalid_reply
    | some (left, right) ↦ elim (parse_port left) [
      | none ↦ invalid_reply
      | some local ↦ elim (parse_port right) [
        | none ↦ invalid_reply
        | some remote ↦ answer local remote (cleaned (find local remote))
      ]
    ]
  ]

unfoldable pub truncate : Text → ℕ → Text
truncate s n = if ltb n (length s) then take n s ++ text "..." else s

-- fetchPortmap: the entries, or an error, of which a refused connection is one.
pub data Fetched : Type 0 where
  ports : List (List Text) → Fetched
  refused : Fetched
  broken : Fetched

-- One entry of a portmap, for a query from an asker: `same_ip` parses an address and compares it,
-- unmapped, with the asker's.
unfoldable pub entry_user : (Text → Bool) → Text → Text → List Text → Option Text
entry_user same_ip local remote (user ∷ l ∷ r ∷ []) =
    if text_eq l local && text_eq r remote then some user else none
entry_user same_ip local remote (user ∷ l ∷ r ∷ ip ∷ more) =
    if text_eq l local && (text_eq r remote && same_ip ip) then some user else none
entry_user same_ip local remote _ = none

unfoldable pub first_user : (Text → Bool) → Text → Text → List (List Text) → Option Text
unfolding entry_user
first_user same_ip local remote [] = none
first_user same_ip local remote (mapping ∷ rest) =
    let later = first_user same_ip local remote rest in
    elim (entry_user same_ip local remote mapping) [ none ↦ later | some user ↦ some user ]

-- The keys of the map `down`, and noteFetch: whether it logs, and the new map.
unfoldable pub is_down : Text → List Text → Bool
is_down url [] = false
is_down url (x ∷ xs) = text_eq x url || is_down url xs

unfoldable pub mark_up : Text → List Text → List Text
mark_up url [] = []
mark_up url (x ∷ xs) = if text_eq x url then mark_up url xs else x ∷ mark_up url xs

unfoldable pub note_fetch : Text → Bool → List Text → List Text × Bool
unfolding is_down mark_up
note_fetch url err down =
    if err && not (is_down url down)
    then (url ∷ down, true)
    else if not err && is_down url down
    then (mark_up url down, true)
    else (down, false)

-- lookup: the answer, and the map `down` afterwards. `bad` is whether a portmap failed so far.
unfoldable pub lookup :
    (Text → Fetched)
    → (Text → Bool)
    → Text
    → Text
    → Bool
    → List Text
    → List Text
    → Found × List Text
unfolding first_user note_fetch
lookup fetch same_ip local remote bad down [] = (if bad then failed else no_user, down)
lookup fetch same_ip local remote bad down (url ∷ urls) = elim (fetch url) [
  | ports ps ↦
      let down' = (note_fetch url false down).0 in
      let later = lookup fetch same_ip local remote bad down' urls in
      elim (first_user same_ip local remote ps) [ none ↦ later | some user ↦ (found user, down') ]
  | refused ↦ lookup fetch same_ip local remote bad (note_fetch url true down).0 urls
  | broken ↦ lookup fetch same_ip local remote true (note_fetch url true down).0 urls
]
