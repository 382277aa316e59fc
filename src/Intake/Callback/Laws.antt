-- ===== src/Intake/Callback/Laws.antt =====
-- The addresses that a callback may name.
use release_engine.Prelude.{
  refl, inl, inr, ◌||◌, Bool-cases, eq_iff, not, Bool, false, ◌≢◌, String, ℕ, ◌+◌, ◌*◌, ◌^◌, ◌≤◌,
  ◌<◌, ◌≡◌, ◌↔◌, ◌⊎◌, true, some, arith,
}
use release_engine.Intake.Callback.{
  Url, NetLibrary, allowed_host, valid_callback_url, is_private_ip, Ip, Ipv4, is_private4,
}

abbrev pub address : Ipv4 → ℕ
address ip = ip.a * 2 ^ 24 + ip.b * 2 ^ 16 + ip.c * 2 ^ 8 + ip.d

pub record IsBytes (ip : Ipv4) : Type 0 where
  pub a : ip.a < 256
  pub b : ip.b < 256
  pub c : ip.c < 256
  pub d : ip.d < 256

-- The address is one of the `n` from `base` on.
abbrev pub IsInBlock : ℕ → ℕ → Ipv4 → Type 0
IsInBlock base n ip = (base ≤ address ip) × (address ip < base + n)

-- 10.0.0.0/8, 172.16.0.0/12, 192.168.0.0/16, 169.254.0.0/16 and 127.0.0.0/8.
abbrev pub IsPrivate : Ipv4 → Type 0
IsPrivate ip =
    IsInBlock (10 * 2 ^ 24) (2 ^ 24) ip
    ⊎ IsInBlock (172 * 2 ^ 24 + 16 * 2 ^ 16) (2 ^ 20) ip
    ⊎ IsInBlock (192 * 2 ^ 24 + 168 * 2 ^ 16) (2 ^ 16) ip
    ⊎ IsInBlock (169 * 2 ^ 24 + 254 * 2 ^ 16) (2 ^ 16) ip
    ⊎ IsInBlock (127 * 2 ^ 24) (2 ^ 24) ip

-- What package net documents of an IPv4 address: loopback is 127.0.0.0/8, and link-local are
-- 169.254.0.0/16 and 224.0.0.0/24.
pub record IsNetAddress (ip : Ip) (ip4 : Ipv4) : Type 0 where
  pub four : ip.to4 ≡ some ip4
  pub bytes : IsBytes ip4
  pub loopback : (ip.is_loopback ≡ true) ↔ IsInBlock (127 * 2 ^ 24) (2 ^ 24) ip4
  pub unicast :
      (ip.is_link_local_unicast ≡ true) ↔ IsInBlock (169 * 2 ^ 24 + 254 * 2 ^ 16) (2 ^ 16) ip4
  pub multicast : (ip.is_link_local_multicast ≡ true) ↔ IsInBlock (224 * 2 ^ 24) (2 ^ 8) ip4

is_private4_iff :
    (ip : Ipv4)
    → IsBytes ip
    → (is_private4 ip ≡ true) ↔ (
        IsInBlock (10 * 2 ^ 24) (2 ^ 24) ip
        ⊎ IsInBlock (172 * 2 ^ 24 + 16 * 2 ^ 16) (2 ^ 20) ip
        ⊎ IsInBlock (192 * 2 ^ 24 + 168 * 2 ^ 16) (2 ^ 16) ip
        ⊎ IsInBlock (169 * 2 ^ 24 + 254 * 2 ^ 16) (2 ^ 16) ip)
unfolding is_private4
is_private4_iff ip h =
    (λ e. ground (arith, h.a, h.b, h.c, h.d, e), λ e. ground (arith, h.a, h.b, h.c, h.d, e))

or4 :
    (x y z w : Bool)
    → ((((x || y || z) || w) ≡ true) ↔ ((x ≡ true) ⊎ (y ≡ true) ⊎ (z ≡ true) ⊎ (w ≡ true)))
or4 x y z w = (λ e. ground (arith, e), λ e. ground (arith, e))

is_private_ip_iff :
    (ip : Ip) (ip4 : Ipv4)
    → IsNetAddress ip ip4
    → (is_private_ip ip ≡ true) ↔ (IsPrivate ip4 ⊎ IsInBlock (224 * 2 ^ 24) (2 ^ 8) ip4)
unfolding is_private_ip
is_private_ip_iff ip ip4 h = rw h.four (
  λ e.
      elim ((or4 ip.is_loopback ip.is_link_local_unicast ip.is_link_local_multicast
          (is_private4 ip4)).0
        e) [
          | inl l ↦ let block = h.loopback.0 l in inl (inr (inr (inr (inr block))))
          | inr (inl l) ↦ inl (inr (inr (inr (inl (h.unicast.0 l)))))
          | inr (inr (inl l)) ↦ inr (h.multicast.0 l)
          | inr (inr (inr p)) ↦ elim ((is_private4_iff ip4 h.bytes).0 p) [
            | inl x ↦ inl (inl x)
            | inr (inl x) ↦ inl (inr (inl x))
            | inr (inr (inl x)) ↦ inl (inr (inr (inl x)))
            | inr (inr (inr x)) ↦ inl (inr (inr (inr (inl x))))
          ]
        ],
  λ e.
      (or4 ip.is_loopback ip.is_link_local_unicast ip.is_link_local_multicast (is_private4 ip4)).1
        (back e),
)
  where
    back :
        IsPrivate ip4 ⊎ IsInBlock (224 * 2 ^ 24) (2 ^ 8) ip4
        → (ip.is_loopback ≡ true)
          ⊎ (ip.is_link_local_unicast ≡ true)
          ⊎ (ip.is_link_local_multicast ≡ true)
          ⊎ (is_private4 ip4 ≡ true)
    back (inl (inl x)) = inr (inr (inr ((is_private4_iff ip4 h.bytes).1 (inl x))))
    back (inl (inr (inl x))) = inr (inr (inr ((is_private4_iff ip4 h.bytes).1 (inr (inl x)))))
    back (inl (inr (inr (inl x)))) =
        inr (inr (inr ((is_private4_iff ip4 h.bytes).1 (inr (inr (inl x))))))
    back (inl (inr (inr (inr (inl x))))) = inr (inl (h.unicast.1 x))
    back (inl (inr (inr (inr (inr x))))) = inl (h.loopback.1 x)
    back (inr x) = inr (inr (inl (h.multicast.1 x)))

host_iff :
    (net : NetLibrary) (host : String) (ip : Ip) (ip4 : Ipv4)
    → net.parse_ip host ≡ some ip
    → host ≢ "localhost"
    → IsNetAddress ip ip4
    → (allowed_host net host ≡ true) ↔ ¬ (IsPrivate ip4 ⊎ IsInBlock (224 * 2 ^ 24) (2 ^ 8) ip4)
unfolding allowed_host
host_iff net host ip ip4 is_ip named h =
    let open_host : allowed_host net host ≡ not (is_private_ip ip) =
      rw (is_ip, allowed_host) (ground (arith, named, eq_iff host "localhost")) in
    let private = is_private_ip_iff ip ip4 h in
    rw open_host (elim (Bool-cases (is_private_ip ip)) [
      | inl e ↦ rw e (λ f. absurd cc, λ f. absurd (f (private.0 e)))
      | inr e ↦ rw e (λ f. λ block. let bad = private.1 block in cc, λ f. refl)
    ])

-- With private callbacks refused, a callback whose host is an IPv4 address is accepted exactly if
-- the URL has a host and the scheme http or https, and the address is in none of the blocks
-- 10.0.0.0/8, 172.16.0.0/12, 192.168.0.0/16, 169.254.0.0/16, 127.0.0.0/8 and 224.0.0.0/24.
pub valid_callback_url_iff :
    (net : NetLibrary) (raw : String) (u : Url) (ip : Ip) (ip4 : Ipv4)
    → net.parse_url raw ≡ some u
    → net.parse_ip u.hostname ≡ some ip
    → u.hostname ≢ "localhost"
    → IsNetAddress ip ip4
    → (valid_callback_url net raw false ≡ true) ↔ (
        (u.host ≢ "")
        × ((u.scheme ≡ "http") ⊎ (u.scheme ≡ "https"))
        × ¬ (IsPrivate ip4 ⊎ IsInBlock (224 * 2 ^ 24) (2 ^ 8) ip4))
unfolding valid_callback_url allowed_host
valid_callback_url_iff net raw u ip ip4 parsed is_ip named h =
    let host = host_iff net u.hostname ip ip4 is_ip named h in
    rw (parsed, valid_callback_url)
      (
        λ e. (
          ground (arith, e, eq_iff u.host ""),
          ground (arith, e, eq_iff u.scheme "http", eq_iff u.scheme "https"),
          host.0 (ground (arith, e)),
        ),
        λ (named_host, scheme, public).
            let fine = host.1 public in
            ground (
              arith,
              named_host,
              scheme,
              fine,
              eq_iff u.host "",
              eq_iff u.scheme "http",
              eq_iff u.scheme "https",
            ),
      )
