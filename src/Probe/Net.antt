-- ===== src/Probe/Net.antt =====
-- Addresses, as the standard library's `IpAddr` and `SocketAddr`, and what `socket.rs` reports of a
-- received datagram (`RecvMeta`).
use mikrotik_quality_agent.Base.{ℕ, Bool, true, false, Option, ◌==◌, ◌≡◌, ◌↔◌, arith}

pub data IpAddr : Type 0 where
  v4 : ℕ → IpAddr
  v6 : ℕ → IpAddr

abbrev pub ip_eq : IpAddr → IpAddr → Bool
ip_eq (v4 a) (v4 b) = a == b
ip_eq (v4 a) (v6 b) = false
ip_eq (v6 a) (v4 b) = false
ip_eq (v6 a) (v6 b) = a == b

-- `0.0.0.0` and `::`.
abbrev pub is_unspecified : IpAddr → Bool
is_unspecified (v4 a) = a == 0
is_unspecified (v6 a) = a == 0

pub ip_eq_iff : (a b : IpAddr) → (ip_eq a b ≡ true) ↔ (a ≡ b)
ip_eq_iff (v4 a) (v4 b) = ground arith
ip_eq_iff (v4 a) (v6 b) = ground arith
ip_eq_iff (v6 a) (v4 b) = ground arith
ip_eq_iff (v6 a) (v6 b) = ground arith

pub record SocketAddr : Type 0 where
  pub ip : IpAddr
  pub port : ℕ

pub record RecvMeta : Type 0 where
  pub dscp : Option ℕ
  pub ttl : Option ℕ
