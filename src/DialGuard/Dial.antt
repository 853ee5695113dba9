-- ===== src/DialGuard/Dial.antt =====
-- pkg/lierc/dialguard.go and dial.go: which network may be private, and the dial of a client. The
-- environment's variables, netip's and net's parses, and what the network answers are parameters.
use lierc.Base.{
  Bool, true, false, not, ◌&&◌, ◌||◌, List, [], ◌∷◌, Option, none, some, ◌==◌, ◌≡◌, ◌≢◌, refl, ap,
  ◌⊎◌, inl, inr, arith, if◌then◌else◌, Text, is_nil, ==_iff, Bool-cases, Option-cases,
}
use lierc.Unicode.{Unicode}
use lierc.Strconv.{ℤ, pos, negsuc, atoi}
use lierc.Config.{IrcConfig}
use lierc.DialGuard.{Addr, dial_allowed, blocked_ip}

abbrev same_int : ℤ → ℤ → Bool
same_int (pos a) (pos b) = a == b
same_int (negsuc a) (negsuc b) = a == b
same_int _ _ = false

-- The port, by what Atoi makes of DEFAULT_NETWORK_PORT.
unfoldable pub default_port : Option ℤ → ℤ
default_port none = pos 6667
default_port (some p) = if same_int p (pos 0) then pos 6667 else p

same_int-eq : (a b : ℤ) → same_int a b ≡ true → a ≡ b
same_int-eq (pos a) (pos b) h = ap pos ((==_iff a b).0 h)
same_int-eq (pos a) (negsuc b) h = absurd (cc h)
same_int-eq (negsuc a) (pos b) h = absurd (cc h)
same_int-eq (negsuc a) (negsuc b) h = ap negsuc ((==_iff a b).0 h)

module _ ⦃u : Unicode⦄ where
  -- Exempt, with DEFAULT_NETWORK_HOST and DEFAULT_NETWORK_PORT
  unfoldable pub exempt : Text → Text → IrcConfig → Bool
  unfolding default_port atoi
  exempt host port cfg =
      if is_nil host || not (u.equal_fold cfg.host host)
      then false
      else same_int cfg.port (default_port (atoi port))

  -- The configuration is the default network's.
  abbrev pub IsDefaultNetwork : Text → Text → IrcConfig → Type 0
  IsDefaultNetwork host port cfg =
      (host ≢ []) × (u.equal_fold cfg.host host ≡ true) × (cfg.port ≡ default_port (atoi port))

  exempt-IsDefaultNetwork :
      (host port : Text) (cfg : IrcConfig)
      → exempt host port cfg ≡ true
      → IsDefaultNetwork host port cfg
  unfolding exempt
  exempt-IsDefaultNetwork [] port cfg h = absurd (cc h)
  exempt-IsDefaultNetwork (x ∷ xs) port cfg h = elim (Bool-cases (u.equal_fold cfg.host (x ∷ xs))) [
    | inl e ↦ (λ q. absurd (cc q), e, same_int-eq cfg.port (default_port (atoi port)) (rw e at h))
    | inr e ↦ absurd (cc (rw e at h))
  ]

-- What a dial meets: the address that its name resolves to, whether it is reached, and whether the
-- handshake succeeds.
pub record Network : Type 0 where
  pub resolved : Text
  pub reached : Bool
  pub shakes : Bool

pub data Step : Type 0 where
  dialed : Text → Step
  shook : Text → Step
  closed : Step
  told : Step

-- The server's name in the handshake.
abbrev pub tls_host : Option (Text × Text) → Text → Text
tls_host none addr = addr
tls_host (some (host, port)) addr = host

abbrev pub is_told : List Step → Bool
is_told [] = false
is_told (told ∷ steps) = true
is_told (s ∷ steps) = is_told steps

-- Whether a connection is open after the steps.
abbrev pub open_after : Bool → List Step → Bool
open_after is_open [] = is_open
open_after is_open (dialed a ∷ steps) = open_after true steps
open_after is_open (shook host ∷ steps) = open_after is_open steps
open_after is_open (closed ∷ steps) = open_after false steps
open_after is_open (told ∷ steps) = open_after is_open steps

module _ ⦃u : Unicode⦄ (parse : Text → Option Addr)
    (split_host_port : Text → Option (Text × Text)) where
  unfoldable pub behind_dial : Bool → Network → Text → List Step
  behind_dial ssl net addr =
      if not ssl
      then told ∷ []
      else if net.shakes
      then shook (tls_host (split_host_port addr) addr) ∷ told ∷ []
      else shook (tls_host (split_host_port addr) addr) ∷ closed ∷ []

  -- dialer's function: what it does, up to the call of onConnected.
  unfoldable pub dialer : Bool → Bool → Network → Text → List Step
  unfolding behind_dial
  dialer exempt ssl net addr =
      if dial_allowed parse exempt net.resolved && net.reached
      then dialed net.resolved ∷ behind_dial ssl net addr
      else []

  abbrev pub IsPublic : Text → Type 0
  IsPublic address = (ip : Addr) × (parse address ≡ some ip) × (blocked_ip ip ≡ false)

  allowed_cases :
      (is_exempt : Bool) (address : Text)
      → dial_allowed parse is_exempt address ≡ true
      → (is_exempt ≡ true) ⊎ IsPublic address
  unfolding dial_allowed
  allowed_cases true address h = inl refl
  allowed_cases false address h = elim (Option-cases (parse address)) [
    | inl e ↦ absurd (cc (rw (e, dial_allowed) at h))
    | inr (ip, e) ↦ inr (ip, e, ground (arith, (rw (e, dial_allowed) at h)))
  ]

  behind_dial_lem :
      (ssl : Bool) (net : Network) (addr : Text)
      → let steps = behind_dial ssl net addr in
        (is_told steps ≡ (not ssl || net.shakes)) × (open_after true steps ≡ is_told steps)
  unfolding behind_dial
  behind_dial_lem false net addr = (refl, refl)
  behind_dial_lem true net addr = elim (Bool-cases net.shakes) [
    | inl e ↦ rw e (refl, refl)
    | inr e ↦ rw e (refl, refl)
  ]

  -- A client's dial does nothing, or it goes to an address that is parsed and not blocked, or the
  -- configuration is the default network's; then the client is told of the connection exactly if TLS
  -- is not asked for or its handshake succeeds, and otherwise the connection is closed.
  pub dialer-exempt :
      (host port : Text) (cfg : IrcConfig) (net : Network) (addr : Text)
      → let steps = dialer (exempt host port cfg) cfg.ssl net addr in
        (steps ≡ [])
        ⊎ ((IsDefaultNetwork host port cfg ⊎ IsPublic net.resolved)
            × (is_told steps ≡ (not cfg.ssl || net.shakes))
            × (open_after false steps ≡ is_told steps))
  unfolding dialer
  dialer-exempt host port cfg net addr =
      let allowed = dial_allowed parse (exempt host port cfg) net.resolved in
      elim (Bool-cases (allowed && net.reached)) [
        | inr e ↦ rw e (inl refl)
        | inl e ↦
            let behind = behind_dial_lem cfg.ssl net addr in
            let may : allowed ≡ true = ground arith in
            rw e (
              inr (
                elim (allowed_cases (exempt host port cfg) net.resolved may) [
                  | inl x ↦ inl (exempt-IsDefaultNetwork host port cfg x)
                  | inr ip ↦ inr ip
                ],
                behind.0,
                behind.1,
              ))
      ]
