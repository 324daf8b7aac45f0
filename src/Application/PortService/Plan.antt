-- ===== src/Application/PortService/Plan.antt =====
-- `identities`, `sameTargets` and `remainingTargetsBelongTo`.
use lx.Base.{
  some, none, true, false, nat_Eq, list_Eq, int_Eq, option_Eq, list_ltb, Bool, Option, ◌≡◌,
  Comparable, ◌==◌, all_of, List, ltb, ◌||◌, Bytes, ◌↔◌, ◌&&◌, find_if, int_ltb, ℕ, ℤ, map, text,
  list_eq_iff, arith,
}
use lx.Domain.{
  protocol_Eq, family_Eq, tcp, udp, ipv4, ipv6, PortReleasePlan, AddressFamily, PortInfo,
  TransportProtocol, Error, make_error, protocol_eq_iff, conflict, family_eq_iff,
}
use lx.Base.Sort.{includes, sort}

-- `SocketIdentity`, the tuple of what makes a socket the same target.
pub record SocketIdentity : Type 0 where
  pub protocol : TransportProtocol
  pub family : AddressFamily
  pub address : Bytes
  pub port : ℕ
  pub inode : ℕ
  pub owner_pids : List ℤ

abbrev pub identity_of : PortInfo → SocketIdentity
identity_of p = record {
  protocol = p.socket.protocol;
  family = p.socket.family;
  address = p.socket.local.address;
  port = p.socket.local.port;
  inode = p.socket.inode;
  owner_pids = p.socket.owner_pids;
}

unfoldable pub identity_eq : SocketIdentity → SocketIdentity → Bool
identity_eq a b =
    a.protocol == b.protocol
    && a.family == b.family
    && a.address == b.address
    && a.port == b.port
    && a.inode == b.inode
    && a.owner_pids == b.owner_pids

pub identity_eq_iff : (a b : SocketIdentity) → (identity_eq a b ≡ true) ↔ (a ≡ b)
unfolding identity_eq
identity_eq_iff a b =
    let p = protocol_eq_iff a.protocol b.protocol in
    let f = family_eq_iff a.family b.family in
    let s = list_eq_iff a.address b.address in
    let o = list_eq_iff a.owner_pids b.owner_pids in
    (λ h. ground (arith, p.0, f.0, s.0, o.0), λ h. ground (arith, p.1, f.1, s.1, o.1))

instance abbrev pub identity_Eq : Comparable SocketIdentity
identity_Eq = record { equals = identity_eq; equals_iff = identity_eq_iff }

abbrev pub protocol_ltb : TransportProtocol → TransportProtocol → Bool
protocol_ltb tcp udp = true
protocol_ltb _ _ = false

abbrev pub family_ltb : AddressFamily → AddressFamily → Bool
family_ltb ipv4 ipv6 = true
family_ltb _ _ = false

-- a < b || (a == b && rest): one component of the order of tuples
abbrev pub component : {A : Type 0} ⦃e : Comparable A⦄ → (A → A → Bool) → A → A → Bool → Bool
component lt a b rest = lt a b || (a == b && rest)

-- `operator<` of tuples.
unfoldable pub identity_ltb : SocketIdentity → SocketIdentity → Bool
unfolding list_ltb
identity_ltb a b = component protocol_ltb a.protocol b.protocol (
    component family_ltb a.family b.family (
      component (list_ltb ltb) a.address b.address (
        component ltb a.port b.port
          (component ltb a.inode b.inode (list_ltb int_ltb a.owner_pids b.owner_pids)))))

unfoldable pub identities : PortReleasePlan → List SocketIdentity
identities plan = sort identity_ltb (map identity_of plan.ports)

unfoldable pub same_targets : PortReleasePlan → PortReleasePlan → Bool
unfolding identities
same_targets expected current = identities expected == identities current

-- the same socket, whoever owns it now
unfoldable pub same_socket : PortInfo → PortInfo → Bool
same_socket current candidate =
    candidate.socket.protocol == current.socket.protocol
    && candidate.socket.family == current.socket.family
    && candidate.socket.local.address == current.socket.local.address
    && candidate.socket.local.port == current.socket.local.port
    && candidate.socket.inode == current.socket.inode

unfoldable pub owned_within : Option PortInfo → PortInfo → Bool
owned_within none current = false
owned_within (some found) current =
    includes int_ltb found.socket.owner_pids current.socket.owner_pids

unfoldable pub remaining_targets_belong_to : PortReleasePlan → PortReleasePlan → Bool
unfolding same_socket owned_within
remaining_targets_belong_to original current =
    all_of (λ port. owned_within (find_if (same_socket port) original.ports) port) current.ports

unfoldable pub changed_target_error : Error
changed_target_error =
    make_error conflict (text "Port ownership changed; refusing to signal a new target")
      (text "port-service") (text "release")
