-- ===== src/Intake/Callback.antt =====
-- `validateCallbackURL` of internal/transport/http/job_handler.go. `url.Parse` and `net.ParseIP` are
-- what they answer; the three tests of an address are those of package net.
pub mod Laws
use release_engine.Prelude.{
  ℕ, String, Bool, true, false, not, ◌&&◌, ◌||◌, Option, none, some, ◌==◌, eqb, leb, if◌then◌else◌,
}

-- `Scheme`, `Host` and `Hostname()`.
pub record Url : Type 0 where
  pub scheme : String
  pub host : String
  pub hostname : String

-- The four bytes of `To4`.
pub record Ipv4 : Type 0 where
  pub a : ℕ
  pub b : ℕ
  pub c : ℕ
  pub d : ℕ

pub record Ip : Type 0 where
  pub is_loopback : Bool
  pub is_link_local_unicast : Bool
  pub is_link_local_multicast : Bool
  pub to4 : Option Ipv4

pub record NetLibrary : Type 0 where
  pub parse_url : String → Option Url
  pub parse_ip : String → Option Ip

unfoldable pub is_private4 : Ipv4 → Bool
is_private4 ip =
    eqb ip.a 10
    || (eqb ip.a 172 && leb 16 ip.b && leb ip.b 31)
    || (eqb ip.a 192 && eqb ip.b 168)
    || (eqb ip.a 169 && eqb ip.b 254)

unfoldable pub is_private_ip : Ip → Bool
is_private_ip ip =
    (ip.is_loopback || ip.is_link_local_unicast || ip.is_link_local_multicast)
    || elim ip.to4 [ none ↦ false | some ip4 ↦ is_private4 ip4 ]

module _ (net : NetLibrary) where
  unfoldable pub allowed_host : String → Bool
  allowed_host host =
      if host == "localhost"
      then false
      else elim (net.parse_ip host) [ none ↦ true | some ip ↦ not (is_private_ip ip) ]

  -- Whether `validateCallbackURL` returns nil.
  unfoldable pub valid_callback_url : String → Bool → Bool
  valid_callback_url raw allow_private = elim (net.parse_url raw) [
    | none ↦ false
    | some u ↦
        if u.host == ""
        then false
        else if not (u.scheme == "http") && not (u.scheme == "https")
        then false
        else if allow_private
        then true
        else allowed_host u.hostname
  ]
