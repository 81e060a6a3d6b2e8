-- ===== src/Auth/Access.antt =====
-- src/proxy/auth.rs: what lets a request through.
use corrall.Prelude.{
  ◌≤◌, ◌≡◌, ◌≢◌, refl, sym, subst, ◌∙◌, and_true, Bool, true, false, not, ◌&&◌, List, [], ◌∷◌,
  Option, none, some, At, here, there, arith, leb, length, if◌then◌else◌,
}
use corrall.Prelude.Bytes.{Bytes, trim}
use corrall.Security.{IpAddr, ct_eq, is_empty, is_loopback_ip, is_loopback_host}
use corrall.Security.Keys.{ct_eq_iff}
use corrall.Auth.{
  ClientKey, ProxyConfig, Auth, shared, client, loopback, denied, Denial, Headers, opens,
  check_clients, check_key, is_browser_initiated, presented_key, host_ok, bare_host, without_key,
  authenticate,
}

opens-key : (p key : Bytes) → opens p key ≡ true → (p ≡ key) × (16 ≤ length key)
opens-key p key h =
    let eq : ct_eq p key ≡ true = ground arith in (((ct_eq_iff p key).0 eq).0, ground arith)

-- The text is a key of the settings, at least 16 bytes long, and `a` says which.
pub data KeyOf (cfg : ProxyConfig) (p : Bytes) : Auth → Type 0 where
  by_shared : p ≡ cfg.api_key → 16 ≤ length cfg.api_key → KeyOf cfg p shared
  by_client :
      (k : ClientKey)
      → At k cfg.client_keys
      → p ≡ k.key
      → 16 ≤ length k.key
      → KeyOf cfg p (client k.name)

check_clients-key :
    (p : Bytes) (keys : List ClientKey) (a : Auth)
    → check_clients p keys ≡ some a
    → (k : ClientKey) × (At k keys × (p ≡ k.key) × (16 ≤ length k.key) × (client k.name ≡ a))
check_clients-key p [] a h = absurd (cc h)
check_clients-key p (k ∷ keys) a h = go (opens p k.key) refl h (λ h'. check_clients-key p keys a h')
  where
    go :
        (t : Bool)
        → opens p k.key ≡ t
        → (if t then some (client k.name) else check_clients p keys) ≡ some a
        → (check_clients p keys ≡ some a
            → (k' : ClientKey) × (At k' keys
                × (p ≡ k'.key)
                × (16 ≤ length k'.key)
                × (client k'.name ≡ a)))
        → (k' : ClientKey) × (At k' (k ∷ keys)
            × (p ≡ k'.key)
            × (16 ≤ length k'.key)
            × (client k'.name ≡ a))
    go true e h rest = let (same, long) = opens-key p k.key e in (k, (here, same, long, cc h))
    go false e h rest = let (k', found) = rest h in (k', (there found.0, found.1, found.2, found.3))

check_key-KeyOf :
    (cfg : ProxyConfig) (presented : Bytes) (a : Auth)
    → check_key cfg (some presented) ≡ some a
    → KeyOf cfg (trim presented) a
unfolding check_key
check_key-KeyOf cfg presented a h =
    go (is_empty (trim presented)) (opens (trim presented) cfg.api_key) refl h
  where
    go :
        (t u : Bool)
        → opens (trim presented) cfg.api_key ≡ u
        → (if t
            then none
            else if u
            then some shared
            else check_clients (trim presented) cfg.client_keys)
          ≡ some a
        → KeyOf cfg (trim presented) a
    go true u e h = absurd (cc h)
    go false true e h =
        let (same, long) = opens-key (trim presented) cfg.api_key e in
        let which : shared ≡ a = cc h in
        subst (KeyOf cfg (trim presented)) which (by_shared same long)
    go false false e h =
        let (k, found) = check_clients-key (trim presented) cfg.client_keys a h in
        subst (KeyOf cfg (trim presented)) found.3 (by_client k found.0 found.1 found.2)

-- The request has no `Host` header, or one that names this machine by a loopback name or address.
abbrev pub NamesLoopback : (Bytes → Option IpAddr) → Option Bytes → Type 0
NamesLoopback parse_ip none = Unit
NamesLoopback parse_ip (some h) = is_loopback_host parse_ip (bare_host (trim h)) ≡ true

host_ok-NamesLoopback :
    (parse_ip : Bytes → Option IpAddr) (host : Option Bytes)
    → host_ok parse_ip host ≡ true
    → NamesLoopback parse_ip host
unfolding host_ok
host_ok-NamesLoopback parse_ip none h = tt
host_ok-NamesLoopback parse_ip (some host) h = h

-- A request of this machine that no web page made, and whose `Host` header, if it has one, is a
-- loopback name, where the settings ask for no key.
pub record LoopbackAllowed (parse_ip : Bytes → Option IpAddr) (cfg : ProxyConfig) (peer : IpAddr)
    (headers : Headers) (host : Option Bytes) : Type 0 where
  pub local_peer : is_loopback_ip peer ≡ true
  pub key_optional : cfg.require_key_on_loopback ≡ false
  pub no_browser : is_browser_initiated headers ≡ false
  pub local_name : NamesLoopback parse_ip host

abbrev pub Granted :
    (Bytes → Option IpAddr) → ProxyConfig → IpAddr → Headers → Option Bytes → Auth → Type 0
Granted parse_ip cfg peer headers host (denied why) = Unit
Granted parse_ip cfg peer headers host loopback = LoopbackAllowed parse_ip cfg peer headers host
Granted parse_ip cfg peer headers host a =
    (p : Bytes) × ((presented_key headers ≡ some p) × KeyOf cfg (trim p) a)

without_key-Granted :
    (parse_ip : Bytes → Option IpAddr) (cfg : ProxyConfig) (peer : IpAddr) (headers : Headers)
    (host : Option Bytes)
    → Granted parse_ip cfg peer headers host (without_key parse_ip cfg peer headers host)
unfolding without_key
without_key-Granted parse_ip cfg peer headers host =
    go (is_browser_initiated headers) (is_loopback_ip peer) cfg.require_key_on_loopback
      (host_ok parse_ip host) refl refl refl refl
  where
    go :
        (b l r o : Bool)
        → is_browser_initiated headers ≡ b
        → is_loopback_ip peer ≡ l
        → cfg.require_key_on_loopback ≡ r
        → host_ok parse_ip host ≡ o
        → Granted parse_ip cfg peer headers host (
            if b
            then denied Denial.browser_originated
            else if l && not r
            then (if o then loopback else denied Denial.foreign_host)
            else denied Denial.invalid_key)
    go true l r o eb el er eo = tt
    go false false r o eb el er eo = tt
    go false true true o eb el er eo = tt
    go false true false false eb el er eo = tt
    go false true false true eb el er eo = record {
      local_peer = el;
      key_optional = er;
      no_browser = eb;
      local_name = host_ok-NamesLoopback parse_ip host eo;
    }

keyed-Granted :
    (parse_ip : Bytes → Option IpAddr) (cfg : ProxyConfig) (peer : IpAddr) (headers : Headers)
    (host : Option Bytes) (p : Bytes) (a : Auth)
    → presented_key headers ≡ some p
    → KeyOf cfg (trim p) a
    → Granted parse_ip cfg peer headers host a
keyed-Granted parse_ip cfg peer headers host p shared e key = (p, (e, key))
keyed-Granted parse_ip cfg peer headers host p (client name) e key = (p, (e, key))
keyed-Granted parse_ip cfg peer headers host p loopback e key = elim key [ ]
keyed-Granted parse_ip cfg peer headers host p (denied why) e key = tt

-- A request is let through by a key of the settings of at least 16 bytes, as the client that the
-- key is of, or else without a key only from this machine, made by no web page, with a `Host` header
-- that is a loopback name or with no `Host` header at all, and where the settings ask for no key.
pub authenticate-Granted :
    (parse_ip : Bytes → Option IpAddr) (cfg : ProxyConfig) (peer : IpAddr) (headers : Headers)
    (host : Option Bytes)
    → Granted parse_ip cfg peer headers host (authenticate parse_ip cfg peer headers host)
unfolding authenticate check_key
authenticate-Granted parse_ip cfg peer headers host = presented (presented_key headers) refl
  where
    checked :
        (p : Bytes) (o : Option Auth)
        → presented_key headers ≡ some p
        → check_key cfg (some p) ≡ o
        → Granted parse_ip cfg peer headers host
            (elim o [ some a ↦ a | none ↦ without_key parse_ip cfg peer headers host ])
    checked p none e e' = without_key-Granted parse_ip cfg peer headers host
    checked p (some a) e e' =
        keyed-Granted parse_ip cfg peer headers host p a e (check_key-KeyOf cfg p a e')

    presented :
        (o : Option Bytes)
        → presented_key headers ≡ o
        → Granted parse_ip cfg peer headers host (elim (check_key cfg o) [
          | some a ↦ a
          | none ↦ without_key parse_ip cfg peer headers host
        ])
    presented none e = without_key-Granted parse_ip cfg peer headers host
    presented (some p) e = checked p (check_key cfg (some p)) e refl

key-opens : (p key : Bytes) → p ≡ key → 16 ≤ length key → opens p key ≡ true
key-opens p key same long =
    let nonempty : p ≢ [] = λ e. long_nonempty key long (sym same ∙ e) in
    and_true (leb 16 (length key)) (ct_eq p key) (ground arith)
      ((ct_eq_iff p key).1 (same, nonempty))
  where
    long_nonempty : (key : Bytes) → 16 ≤ length key → key ≢ []
    long_nonempty [] long e = absurd (omega arith)
    long_nonempty (c ∷ key) long e = absurd (cc e)

check_clients-some :
    (p : Bytes) (k : ClientKey) (keys : List ClientKey)
    → At k keys
    → opens p k.key ≡ true
    → (a : Auth) × (check_clients p keys ≡ some a)
check_clients-some p k [] at h = elim at [ ]
check_clients-some p k (_ ∷ keys) here h = (client k.name, rw (h) refl)
check_clients-some p k (j ∷ keys) (there at) h =
    go (opens p j.key) (check_clients-some p k keys at h)
  where
    go :
        (t : Bool)
        → (a : Auth) × (check_clients p keys ≡ some a)
        → (a : Auth) × ((if t then some (client j.name) else check_clients p keys) ≡ some a)
    go true rest = (client j.name, refl)
    go false rest = rest

check_key-some :
    (cfg : ProxyConfig) (presented : Bytes) (k : ClientKey)
    → At k cfg.client_keys
    → trim presented ≡ k.key
    → 16 ≤ length k.key
    → (a : Auth) × (check_key cfg (some presented) ≡ some a)
unfolding check_key
check_key-some cfg presented k at same long =
    go (is_empty (trim presented)) (opens (trim presented) cfg.api_key)
      (filled (trim presented) (rw (same) long))
      (check_clients-some (trim presented) k cfg.client_keys at
        (key-opens (trim presented) k.key same long))
  where
    filled : (p : Bytes) → 16 ≤ length p → is_empty p ≡ false
    filled [] long = absurd (omega arith)
    filled (c ∷ p) long = refl

    go :
        (t u : Bool)
        → t ≡ false
        → (a : Auth) × (check_clients (trim presented) cfg.client_keys ≡ some a)
        → (a : Auth) × ((if t
              then none
              else if u
              then some shared
              else check_clients (trim presented) cfg.client_keys)
            ≡ some a)
    go true u e rest = absurd (cc e)
    go false true e rest = (shared, refl)
    go false false e rest = rest

not_denied :
    (cfg : ProxyConfig) (p : Bytes) (a : Auth) (why : Denial) → KeyOf cfg p a → a ≢ denied why
not_denied cfg p shared why key e = absurd (cc e)
not_denied cfg p (client name) why key e = absurd (cc e)
not_denied cfg p loopback why key e = absurd (cc e)
not_denied cfg p (denied reason) why key e = elim key [ ]

-- Who presents a client key of at least 16 bytes is never refused, wherever the request comes from.
authenticate-accepts :
    (parse_ip : Bytes → Option IpAddr) (cfg : ProxyConfig) (peer : IpAddr) (headers : Headers)
    (host : Option Bytes) (p : Bytes) (k : ClientKey) (why : Denial)
    → presented_key headers ≡ some p
    → At k cfg.client_keys
    → trim p ≡ k.key
    → 16 ≤ length k.key
    → authenticate parse_ip cfg peer headers host ≢ denied why
unfolding authenticate
authenticate-accepts parse_ip cfg peer headers host p k why e at same long h =
    let (a, found) = check_key-some cfg p k at same long in
    let taken : authenticate parse_ip cfg peer headers host ≡ a = rw (authenticate, e, found) in
    not_denied cfg (trim p) a why (check_key-KeyOf cfg p a found) (sym taken ∙ h)
