-- ===== src/Cli/Raises.antt =====
-- What the steps of src/optisocks5/cli.py before the handshake raise.
use optisocks.Prelude.{
  zero, suc, ℤ, pos, negsuc, ◌≡◌, refl, ap, ◌∙◌, true, false, Option, none, some, Text, Exn, Result,
  ok, err, value_error, ◌>>=◌, arith, drop,
}
use optisocks.Client.Connect.{Client, Connected}
use optisocks.Client.Connect
use optisocks.Cli.Target.{
  Python, Url, Proxy, parse_proxy, proxy_of, with_port, full_url, split_target, split_bracketed,
  split_once, int_of, partition, bracket, colon,
}
use optisocks.Cli.Commands.{Ended, exits, bad_proxy, bad_target, escapes, is_caught, is_zero}

-- What `urlparse` raises for a URL that it cannot read, and its property `port`.
pub record IsUrlparse (py : Python) : Type 0 where
  pub bad_url : (t : Text) (e : Exn) → py.urlparse t ≡ err e → e ≡ value_error
  pub bad_port :
      (t : Text) (u : Url) (e : Exn) → py.urlparse t ≡ ok u → u.port ≡ err e → e ≡ value_error

-- How a run that prints nothing ends: by the SystemExit for a URL without host or port, by the one
-- for a target without a port, or by an exception that `except (OSError, Socks5Error)` lets pass.
abbrev pub IsSilent : Python → Text → Text → Ended → Type 0
IsSilent py proxy target (exits n) = ⊥
IsSilent py proxy target bad_proxy = parse_proxy py proxy ≡ ok none
IsSilent py proxy target bad_target =
    (host : Text) × (split_target py target (pos 0) ≡ ok (host, pos 0))
IsSilent py proxy target (escapes e) = is_caught e ≡ false

pub value_passes : (e : Exn) → e ≡ value_error → is_caught e ≡ false
value_passes e h = rw h refl

int_of-raises : (py : Python) (t : Text) (e : Exn) → int_of py t ≡ err e → e ≡ value_error
unfolding int_of
int_of-raises py t e h = ground arith

port_raises :
    (py : Python) (t host : Text) (e : Exn)
    → (◌>>=◌ {B = Text × ℤ} (int_of py t) λ port. ok (host, port)) ≡ err e
    → e ≡ value_error
port_raises py t host e h = by_int (int_of py t) refl h
  where
    by_int :
        (x : Result ℤ)
        → int_of py t ≡ x
        → (◌>>=◌ {B = Text × ℤ} x λ port. ok (host, port)) ≡ err e
        → e ≡ value_error
    by_int (err e') at h' =
        let same : e' ≡ e = ground arith in int_of-raises py t e (at ∙ ap (λ x. err x) same)
    by_int (ok port) at h' = cc

pub split_target-raises :
    (py : Python) (target : Text) (port : ℤ) (e : Exn)
    → split_target py target port ≡ err e
    → e ≡ value_error
unfolding split_target split_bracketed split_once
split_target-raises py target port e h =
    let inside =
      port_raises py (drop 1 (partition bracket (drop 1 target)).2)
        (partition bracket (drop 1 target)).0 e in
    let once = port_raises py (partition colon target).2 (partition colon target).0 e in
    ground (arith, inside, once)

pub parse_proxy-raises :
    (py : Python) (url : Text) (e : Exn)
    → IsUrlparse py
    → parse_proxy py url ≡ err e
    → e ≡ value_error
unfolding parse_proxy
parse_proxy-raises py url e law h = by_url (py.urlparse (full_url url)) refl h
  where
    by_port :
        (u : Url) (x : Result (Option ℤ)) (host : Text)
        → py.urlparse (full_url url) ≡ ok u
        → u.port ≡ x
        → (x >>= λ port. ok (with_port u host port)) ≡ err e
        → e ≡ value_error
    by_port u (err e') host at port h' =
        let same : e' ≡ e = ground arith in
        law.bad_port (full_url url) u e at (port ∙ ap (λ x. err x) same)
    by_port u (ok port') host at port h' = cc

    by_host :
        (u : Url) (o : Option Text)
        → py.urlparse (full_url url) ≡ ok u
        → (elim o as (λ t. Result (Option Proxy)) [
          | none ↦ ok none
          | some host ↦ (do port ← u.port; ok (with_port u host port))
        ])
          ≡ err e
        → e ≡ value_error
    by_host u none at h' = cc
    by_host u (some host) at h' = by_port u u.port host at refl h'

    by_url :
        (x : Result Url)
        → py.urlparse (full_url url) ≡ x
        → (x >>= proxy_of) ≡ err e
        → e ≡ value_error
    by_url (err e') at h' =
        let same : e' ≡ e = ground arith in law.bad_url (full_url url) e (at ∙ ap (λ x. err x) same)
    by_url (ok u) at h' = by_host u u.hostname at h'

pub init-raises :
    (user password : Option Text) (e : Exn) → Connect.init user password ≡ err e → e ≡ value_error
unfolding Connect.init
init-raises none none e h = cc
init-raises none (some w) e h = ground arith
init-raises (some u) none e h = ground arith
init-raises (some u) (some w) e h = cc

pub is_zero-eq : (n : ℤ) → is_zero n ≡ true → n ≡ pos 0
is_zero-eq (pos zero) h = refl
is_zero-eq (pos (suc n)) h = cc
is_zero-eq (negsuc n) h = cc
