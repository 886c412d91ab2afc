-- ===== src/ClientIp.antt =====
-- apps/audit/context.py: the address of the client behind trusted proxies, and the audit context of a
-- request. Python's `ipaddress` module is a parameter: parsing an address, its text, and whether it
-- lies in a network.
pub mod Trust
use Prim.Native.Char.{code}
use Prim.Native.String as Text
use django_ninja_rbac_authen.Prelude.{
  ℕ, Bool, true, false, Option, none, some, List, [], ◌∷◌, String, str_eq, ◌==◌, any, if◌then◌else◌,
}
use django_ninja_rbac_authen.AuditLogs.{AuditContext}
use django_ninja_rbac_authen.Guard.{Principal}

pub record IpLibrary : Type 1 where
  pub Address : Type 0
  -- `ip_address(value)`; `none` is its `ValueError`.
  pub parse : String → Option Address
  pub text : Address → String
  -- `ip in ip_network(cidr, strict=False)`, for the networks that the settings hold
  pub is_in : Address → String → Bool
  pub strip : String → String

-- The headers and the peer of a request, as far as they are read.
pub record Request : Type 0 where
  pub remote_addr : Option String
  pub forwarded_for : Option String
  pub user_agent : Option String
  pub request_id : Option String

push_char : String → List String → List String
push_char c [] = c ∷ []
push_char c (s ∷ ss) = Text.◌++◌ c s ∷ ss

-- `split(",")`
unfoldable pub split_commas : String → List String
unfolding push_char
split_commas Text.[] = "" ∷ []
split_commas (Text.◌∷◌ c s) =
    let rest = split_commas s in
    if code c == b',' then "" ∷ rest else push_char (Text.◌∷◌ c "") rest

abbrev pub reverse_onto : List String → List String → List String
reverse_onto [] ys = ys
reverse_onto (x ∷ xs) ys = reverse_onto xs (x ∷ ys)

-- `value or None`
abbrev pub nonempty : Option String → Option String
nonempty none = none
nonempty (some s) = if str_eq s "" then none else some s

module _ (ip : IpLibrary) (cidrs : List String) where
  open ip use {Address, parse, text, is_in, strip}

  -- `_is_trusted_proxy`
  abbrev pub is_trusted_proxy : Address → Bool
  is_trusted_proxy a = any (is_in a) cidrs

  abbrev pub stripped : List String → List String
  stripped [] = []
  stripped (s ∷ ss) = strip s ∷ stripped ss

  -- The entries of the header, the last one first.
  unfoldable pub candidates : String → List String
  unfolding split_commas
  candidates header = reverse_onto (stripped (split_commas header)) []

  abbrev judge : Option Address → Option Address → Option Address
  judge none rest = rest
  judge (some a) rest = if is_trusted_proxy a then rest else some a

  -- The first candidate that is an address and no trusted proxy.
  unfoldable pub first_client : List String → Option Address
  first_client [] = none
  first_client (c ∷ cs) = judge (parse c) (first_client cs)

  abbrev or_peer : Address → Option Address → String
  or_peer peer none = text peer
  or_peer peer (some a) = text a

  behind_proxy : Address → Option String → String
  unfolding first_client candidates
  behind_proxy peer none = text peer
  behind_proxy peer (some header) = or_peer peer (first_client (candidates header))

  peer_ip : String → Option Address → Option String → String
  unfolding behind_proxy
  peer_ip remote none forwarded = remote
  peer_ip remote (some peer) forwarded =
      if is_trusted_proxy peer then behind_proxy peer forwarded else text peer

  known_ip : Option String → Option String → Option String
  unfolding peer_ip
  known_ip none forwarded = none
  known_ip (some remote) forwarded = some (peer_ip remote (parse remote) forwarded)

  -- `_client_ip`
  unfoldable pub client_ip : Request → Option String
  unfolding known_ip
  client_ip r = known_ip (nonempty r.remote_addr) (nonempty r.forwarded_for)

  abbrev actor : Option Principal → Option ℕ
  actor none = none
  actor (some p) = some p.user_id

  -- `AuditContext.from_request`; a `Principal` has no `email`.
  unfoldable pub from_request : Request → Option Principal → AuditContext
  unfolding client_ip
  from_request r principal = record {
    actor_id = actor principal;
    actor_email = none;
    ip = client_ip r;
    user_agent = nonempty r.user_agent;
    request_id = nonempty r.request_id;
  }
