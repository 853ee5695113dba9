-- ===== src/Client/ConfigChannels.antt =====
-- The channels of a connection's config: adding and removing by name.
use lierc.Base.{
  true, false, not, ◌||◌, List, [], ◌∷◌, ◌++◌, ◌≡◌, refl, arith, Text, length, length-keep-le,
  Bool-cases, inl, inr, ◌<◌,
}
use lierc.Unicode.{Unicode}
use lierc.Client.{Client, names_channel, any_names, add_config_channel, kept, remove_config_channel}

module _ ⦃u : Unicode⦄ where
  any_names-append :
      (name : Text) (xs ys : List Text)
      → any_names name (xs ++ ys) ≡ (any_names name xs || any_names name ys)
  unfolding any_names
  any_names-append name [] ys = refl
  any_names-append name (x ∷ xs) ys = ground (arith, any_names-append name xs ys)

  -- What is added is named by an entry from then on, and a name that one entry has already is not
  -- added again: the answer says which.
  pub any_names-add_config_channel :
      (name : Text) (c : Client)
      → names_channel name name ≡ true
      → (any_names name (add_config_channel name c).0.config.channels ≡ true)
        × ((add_config_channel name c).1 ≡ not (any_names name c.config.channels))
  unfolding add_config_channel
  any_names-add_config_channel name c h =
      ground (arith, any_names-append name c.config.channels (name ∷ []))

  any_names-kept : (name : Text) (xs : List Text) → any_names name (kept name xs) ≡ false
  unfolding any_names kept
  any_names-kept name [] = refl
  any_names-kept name (x ∷ xs) = ground (arith, any_names-kept name xs)

  kept_all : (name : Text) (xs : List Text) → any_names name xs ≡ false → kept name xs ≡ xs
  unfolding any_names kept
  kept_all name [] h = refl
  kept_all name (x ∷ xs) h = ground (arith, kept_all name xs)

  length-kept-lt :
      (name : Text) (xs : List Text) → any_names name xs ≡ true → length (kept name xs) < length xs
  unfolding any_names kept
  length-kept-lt name [] h = cc
  length-kept-lt name (x ∷ xs) h =
      ground
        (arith, length-kept-lt name xs, length-keep-le (λ entry. not (names_channel name entry)) xs)

  -- removeConfigChannel keeps just the entries that do not name the channel, so that none does, and
  -- returns whether one did.
  pub remove_config_channel_lem :
      (name : Text) (c : Client)
      → ((remove_config_channel name c).0.config.channels ≡ kept name c.config.channels)
        × (any_names name (remove_config_channel name c).0.config.channels ≡ false)
        × ((remove_config_channel name c).1 ≡ any_names name c.config.channels)
  unfolding remove_config_channel kept
  remove_config_channel_lem name c = elim (Bool-cases (any_names name c.config.channels)) [
    | inl e ↦
        ground (arith, length-kept-lt name c.config.channels, any_names-kept name c.config.channels)
    | inr e ↦ ground (arith, kept_all name c.config.channels)
  ]
