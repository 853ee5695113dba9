-- ===== src/Manager/Identd.antt =====
-- identd and the liercds whose portmaps it reads.
use lierc.Base.{
  ℕ, Bool, true, false, List, [], ◌∷◌, Option, none, some, ◌≡◌, refl, sym, ap, ◌∙◌, ◌⊎◌, inl, inr,
  Text, text, text_eq, All,
}
use mathlib.Core.Path.{subst}
use lierc.Unicode.{Unicode}
use lierc.Irc.{IrcGo}
use lierc.Ident.{Found, found, no_user, Fetched, ports, refused, first_user, lookup, note_fetch}
use lierc.Ident.Fetch.{Got, get_refused, answered, fetch_portmap, decoded}
use lierc.Ident.Lookup.{Some}
use lierc.Manager.{Outside, Manager}
use lierc.Manager.Requests.{Request, handle_command, portmap_rows}
use lierc.Manager.PortMaps.{SomeClient, NoClient, first_user-portmap_rows}

-- A liercd.
pub data Instance : Type 0 where
  running : Manager → Instance
  stopped : Instance

abbrev pub portmap_request : Request
portmap_request = record { path = text "/portmap"; body = none; config = none }

module _ ⦃u : Unicode⦄ ⦃g : IrcGo⦄ ⦃out : Outside⦄ (decode : Text → Option (List (List Text))) where
  -- What a Get of the portmap returns.
  abbrev pub get : ℕ → Instance → Got
  get now stopped = get_refused
  get now (running m) =
      let r = (handle_command now [] portmap_request m).1 in answered r.code (decode r.answer)

  -- The instance is stopped, or none of its clients has the connection.
  abbrev pub HasNoClient : (Text → Bool) → Text → Text → Instance → Type 0
  HasNoClient same_ip local remote stopped = Unit
  HasNoClient same_ip local remote (running m) = NoClient same_ip local remote m.objects m.clients

  abbrev pub HasClient : (Text → Bool) → Text → Text → Text → Instance → Type 0
  HasClient same_ip local remote user stopped = ⊥
  HasClient same_ip local remote user (running m) =
      SomeClient same_ip local remote m.objects user m.clients

  fetch-running :
      (now : ℕ) (m : Manager)
      → decode (out.json_portmap (portmap_rows m.objects m.clients))
        ≡ some (portmap_rows m.objects m.clients)
      → fetch_portmap (get now (running m)) ≡ ports (portmap_rows m.objects m.clients)
  unfolding fetch_portmap decoded handle_command text_eq
  fetch-running now m read = ap decoded read

-- The answer over a portmap and the ones behind it.
module _ (fetch : Text → Fetched) (same_ip : Text → Bool) (local remote : Text) where
  lookup-refused :
      (url : Text) (urls down : List Text)
      → fetch url ≡ refused
      → lookup fetch same_ip local remote false down (url ∷ urls)
        ≡ lookup fetch same_ip local remote false (note_fetch url true down).0 urls
  unfolding lookup
  lookup-refused url urls down e = rw (e, lookup)

  lookup-ports :
      (url : Text) (urls down : List Text) (ps : List (List Text)) (user : Text)
      → fetch url ≡ ports ps
      → first_user same_ip local remote ps ≡ some user
      → (lookup fetch same_ip local remote false down (url ∷ urls)).0 ≡ found user
  unfolding lookup
  lookup-ports url urls down ps user e there = rw (e, lookup) (rw (there, lookup))

  lookup-next :
      (url : Text) (urls down : List Text) (ps : List (List Text))
      → fetch url ≡ ports ps
      → first_user same_ip local remote ps ≡ none
      → lookup fetch same_ip local remote false down (url ∷ urls)
        ≡ lookup fetch same_ip local remote false (note_fetch url false down).0 urls
  unfolding lookup
  lookup-next url urls down ps e there = rw (e, lookup) (rw (there, lookup))

module _ ⦃u : Unicode⦄ ⦃g : IrcGo⦄ ⦃out : Outside⦄ (decode : Text → Option (List (List Text)))
    (same_ip : Text → Bool) (local remote : Text) (now : ℕ) (instance_at : Text → Instance) where
  abbrev pub fetch : Text → Fetched
  fetch url = fetch_portmap (get decode now (instance_at url))

  -- Each portmap is read as it was written, as encoding/json has it for valid UTF-8.
  abbrev pub ReadBack : Type 0
  ReadBack =
      (url : Text) (m : Manager)
      → instance_at url ≡ running m
      → decode (out.json_portmap (portmap_rows m.objects m.clients))
        ≡ some (portmap_rows m.objects m.clients)

  abbrev pub Outcome : List Text → Found → Type 0
  Outcome urls r =
      ((user : Text) × (r ≡ found user)
        × Some (λ url. HasClient decode same_ip local remote user (instance_at url)) urls)
      ⊎ ((r ≡ no_user)
          × All (λ url. HasNoClient decode same_ip local remote (instance_at url)) urls)

  -- A portmap that has nothing is passed over.
  later-Outcome :
      (url : Text) (urls : List Text) (r r' : Found)
      → HasNoClient decode same_ip local remote (instance_at url)
      → r' ≡ r
      → Outcome urls r
      → Outcome (url ∷ urls) r'
  later-Outcome url urls r r' nobody e (inl (user, q, there)) = inl (user, e ∙ q, inr there)
  later-Outcome url urls r r' nobody e (inr (q, others)) = inr (e ∙ q, (nobody, others))

  instance-Outcome :
      (url : Text) (urls down : List Text) (i : Instance)
      → ReadBack
      → instance_at url ≡ i
      → ((down' : List Text) → Outcome urls (lookup fetch same_ip local remote false down' urls).0)
      → Outcome (url ∷ urls) (lookup fetch same_ip local remote false down (url ∷ urls)).0
  unfolding fetch_portmap
  instance-Outcome url urls down stopped read e later =
      let got : fetch url ≡ refused = ap (λ i. fetch_portmap (get decode now i)) e in
      later-Outcome url urls _ _ (subst (HasNoClient decode same_ip local remote) (sym e) tt)
        (ap (λ r. r.0) (lookup-refused fetch same_ip local remote url urls down got))
        (later (note_fetch url true down).0)
  instance-Outcome url urls down (running m) read e later =
      let rows = portmap_rows m.objects m.clients in
      let got : fetch url ≡ ports rows =
        ap (λ i. fetch_portmap (get decode now i)) e ∙ fetch-running decode now m (read url m e) in
      elim (first_user-portmap_rows same_ip local remote m.objects m.clients) [
        | inl (user, q, own) ↦ inl (
          user,
          lookup-ports fetch same_ip local remote url urls down rows user got q,
          inl (subst (HasClient decode same_ip local remote user) (sym e) own),
        )
        | inr (q, nobody) ↦
            later-Outcome url urls _ _
              (subst (HasNoClient decode same_ip local remote) (sym e) nobody)
              (ap (λ r. r.0) (lookup-next fetch same_ip local remote url urls down rows got q))
              (later (note_fetch url false down).0)
      ]

  -- If the portmap of each liercd that runs is read back as it was written, and the others refuse
  -- the connection, then identd's lookup over them answers the ident user of a listed client, of
  -- some liercd, whose socket has the query's ports and server address; or it answers that there is
  -- no user, and no listed client of any of them has such a socket.
  pub lookup-get :
      (urls down : List Text)
      → ReadBack
      → Outcome urls (lookup fetch same_ip local remote false down urls).0
  unfolding lookup
  lookup-get [] down read = inr (refl, tt)
  lookup-get (url ∷ urls) down read =
      instance-Outcome url urls down (instance_at url) read refl
        (λ down'. lookup-get urls down' read)
