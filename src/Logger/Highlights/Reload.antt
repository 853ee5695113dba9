-- ===== src/Logger/Highlights/Reload.antt =====
-- After a reload, a connection has exactly the pattern of its row.
use lierc.Base.{
  Bool, false, List, [], ◌∷◌, Option, none, some, ◌≡◌, refl, sym, ap, ◌∙◌, inl, inr, arith,
  if◌then◌else◌, Text, Map, lookup, insert, text_eq, text_eq_iff, lookup-insert, Bool-cases,
}
use mathlib.Core.Path.{subst}
use lierc.Logger.Store.{highlight_rows}
use lierc.Logger.Highlights.{
  Regexps, Compiled, pattern, no_words, bad_highlight, compile_config, with_pattern,
  compile_highlights, reload,
}

-- The words of the id's last row that has any, or d.
abbrev pub last_words : Text → Option Text → List (Option (Text × Option Text)) → Option Text
last_words id d [] = d
last_words id d (none ∷ rows) = last_words id d rows
last_words id d (some (k, none) ∷ rows) = last_words id d rows
last_words id d (some (k, some words) ∷ rows) =
    last_words id (if text_eq k id then some words else d) rows

-- Each key once.
abbrev Once : Map Text → Type 0
Once [] = Unit
Once ((k, v) ∷ m) = (lookup k m ≡ none) × Once m

insert-Once : (k v : Text) (m : Map Text) → Once m → Once (insert k v m)
unfolding insert lookup
insert-Once k v [] h = (refl, tt)
insert-Once k v ((j, w) ∷ m) h = elim (Bool-cases (text_eq j k)) [
  | inl e ↦ rw e (ap (λ i. lookup i m) (sym ((text_eq_iff j k).0 e)) ∙ h.0, h.1)
  | inr e ↦ rw e (
    lookup-insert k j v m
        ∙ (let differ : text_eq k j ≡ false = ground (arith, text_eq_iff k j, text_eq_iff j k) in
            rw differ h.0),
    insert-Once k v m h.1,
  )
]

highlight_rows_lem :
    (rows : List (Option (Text × Option Text))) (configs configs' : Map Text) (id : Text)
    → Once configs
    → highlight_rows rows configs ≡ some configs'
    → Once configs' × (lookup id configs' ≡ last_words id (lookup id configs) rows)
unfolding highlight_rows
highlight_rows_lem [] configs configs' id once h =
    let same : configs ≡ configs' = cc h in (subst Once same once, ap (lookup id) (sym same))
highlight_rows_lem (none ∷ rows) configs configs' id once h = absurd (cc h)
highlight_rows_lem (some (k, none) ∷ rows) configs configs' id once h =
    highlight_rows_lem rows configs configs' id once h
highlight_rows_lem (some (k, some words) ∷ rows) configs configs' id once h =
    let rest =
      highlight_rows_lem rows (insert k words configs) configs' id
        (insert-Once k words configs once) h in
    (rest.0, rest.1 ∙ ap (λ d. last_words id d rows) (lookup-insert k id words configs))

module _ ⦃re : Regexps⦄ where
  -- The pattern of a highlight, or d where it gives none.
  abbrev pub from_compiled : Compiled → Option (Text → Bool) → Option (Text → Bool)
  from_compiled (pattern matches) d = some matches
  from_compiled no_words d = d
  from_compiled bad_highlight d = d

  abbrev pub chosen : Option Text → Option (Text → Bool) → Option (Text → Bool)
  chosen none d = d
  chosen (some config) d = from_compiled (compile_config config) d

  lookup-with_pattern :
      (k id : Text) (c : Compiled) (ps : Map (Text → Bool))
      → lookup id (with_pattern k c ps)
        ≡ (if text_eq k id then from_compiled c (lookup id ps) else lookup id ps)
  lookup-with_pattern k id (pattern matches) ps = lookup-insert k id matches ps
  lookup-with_pattern k id no_words ps = elim (Bool-cases (text_eq k id)) [
    | inl e ↦ rw e
    | inr e ↦ rw e
  ]
  lookup-with_pattern k id bad_highlight ps = elim (Bool-cases (text_eq k id)) [
    | inl e ↦ rw e
    | inr e ↦ rw e
  ]

  lookup-compile_highlights :
      (configs : Map Text) (ps : Map (Text → Bool)) (id : Text)
      → Once configs
      → lookup id (compile_highlights configs ps) ≡ chosen (lookup id configs) (lookup id ps)
  unfolding compile_highlights lookup
  lookup-compile_highlights [] ps id once = refl
  lookup-compile_highlights ((k, config) ∷ rest) ps id once =
      let later =
        lookup-compile_highlights rest (with_pattern k (compile_config config) ps) id once.1 in
      let here = lookup-with_pattern k id (compile_config config) ps in
      elim (Bool-cases (text_eq k id)) [
        | inl e ↦
            let gone = ap (λ i. lookup i rest) (sym ((text_eq_iff k id).0 e)) ∙ once.0 in
            rw e (
              later
              ∙ ap (λ found. chosen found (lookup id (with_pattern k (compile_config config) ps)))
                  gone
              ∙ (rw e at here))
        | inr e ↦ rw e (later ∙ ap (chosen (lookup id rest)) (rw e at here))
      ]

  -- If the rows of the highlights can be read, then after a reload each connection has exactly the
  -- pattern that the words of its last row with any give, whatever pattern it had: none where there
  -- is no such row, where its words cannot be decoded or compiled, or are all blank.
  pub lookup-reload :
      (rows : List (Option (Text × Option Text))) (configs : Map Text) (ps : Map (Text → Bool))
      (id : Text)
      → highlight_rows rows [] ≡ some configs
      → lookup id (reload (some configs) ps) ≡ chosen (last_words id none rows) none
  unfolding reload lookup
  lookup-reload rows configs ps id h =
      let read = highlight_rows_lem rows [] configs id tt h in
      lookup-compile_highlights configs [] id read.0 ∙ ap (λ found. chosen found none) read.1
