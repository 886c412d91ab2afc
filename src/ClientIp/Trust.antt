-- ===== src/ClientIp/Trust.antt =====
-- Whom the code believes about the client's address.
use django_ninja_rbac_authen.Prelude.{
  ◌≡◌, ◌≢◌, refl, sym, ap, subst, ◌∙◌, append-nil, ◌⊎◌, inl, inr, true, false, none, some, List, [],
  ◌∷◌, ◌++◌, String, str_eq, eq_iff, arith, All, Bool-cases, Option-cases,
}
use django_ninja_rbac_authen.ClientIp.{
  IpLibrary, Request, is_trusted_proxy, split_commas, stripped, reverse_onto, candidates,
  first_client, behind_proxy, peer_ip, known_ip, client_ip,
}

-- Reversing what stands around an entry.
reverse_onto-around :
    (before : List String) (c : String) (after ys : List String)
    → reverse_onto (before ++ c ∷ after) ys ≡ reverse_onto after (c ∷ reverse_onto before ys)
reverse_onto-around [] c after ys = refl
reverse_onto-around (x ∷ xs) c after ys = reverse_onto-around xs c after (x ∷ ys)

reverse_onto-append :
    (xs ys zs : List String) → reverse_onto xs (ys ++ zs) ≡ reverse_onto xs ys ++ zs
reverse_onto-append [] ys zs = refl
reverse_onto-append (x ∷ xs) ys zs = reverse_onto-append xs (x ∷ ys) zs

reverse_onto-twice :
    (xs ys zs : List String) → reverse_onto (reverse_onto xs ys) zs ≡ reverse_onto ys (xs ++ zs)
reverse_onto-twice [] ys zs = refl
reverse_onto-twice (x ∷ xs) ys zs = reverse_onto-twice xs (x ∷ ys) zs

reverse_onto-involutive : (xs : List String) → reverse_onto (reverse_onto xs []) [] ≡ xs
reverse_onto-involutive xs = reverse_onto-twice xs [] [] ∙ append-nil xs

module _ (ip : IpLibrary) (cidrs : List String) where
  open ip use {Address, parse, text}

  -- The entry is no address, or that of a trusted proxy.
  abbrev pub IsPassedOver : String → Type 0
  IsPassedOver c =
      (parse c ≡ none) ⊎ ((a : Address) × (parse c ≡ some a) × (is_trusted_proxy ip cidrs a ≡ true))

  -- The address is the first of the list that is not passed over.
  abbrev IsFirstClient : Address → List String → Type 0
  IsFirstClient a cs =
      (before : List String) × (c : String) × (after : List String) × (cs ≡ before ++ c ∷ after)
      × All IsPassedOver before
      × (parse c ≡ some a)
      × (is_trusted_proxy ip cidrs a ≡ false)

  -- The entries of the header, as they stand in it from left to right, without the space around them.
  abbrev pub entries : String → List String
  entries header = stripped ip cidrs (split_commas header)

  -- The address is that of the last entry that is not passed over: all entries to its right are.
  abbrev pub IsLastClient : Address → List String → Type 0
  IsLastClient a cs =
      (before : List String) × (c : String) × (after : List String) × (cs ≡ before ++ c ∷ after)
      × All IsPassedOver after
      × (parse c ≡ some a)
      × (is_trusted_proxy ip cidrs a ≡ false)

  All-reverse_onto :
      (xs ys : List String)
      → All IsPassedOver (reverse_onto xs ys)
      → All IsPassedOver xs × All IsPassedOver ys
  All-reverse_onto [] ys h = (tt, h)
  All-reverse_onto (x ∷ xs) ys h =
      let (rest, (here, more)) = All-reverse_onto xs (x ∷ ys) h in ((here, rest), more)

  IsLastClient-of_reversed :
      (a : Address) (cs : List String) → IsFirstClient a (reverse_onto cs []) → IsLastClient a cs
  IsLastClient-of_reversed a cs (before, c, after, e, passed, here, untrusted) = (
    reverse_onto after [],
    c,
    reverse_onto before [],
    sym (reverse_onto-involutive cs)
        ∙ ap (λ l. reverse_onto l []) e
        ∙ reverse_onto-around before c after []
        ∙ reverse_onto-append after [] (c ∷ reverse_onto before []),
    (All-reverse_onto (reverse_onto before []) []
        (subst (All IsPassedOver) (sym (reverse_onto-involutive before)) passed)).0,
    here,
    untrusted,
  )

  pub first_client_cases :
      (cs : List String)
      → ((first_client ip cidrs cs ≡ none) × All IsPassedOver cs)
        ⊎ ((a : Address) × (first_client ip cidrs cs ≡ some a) × IsFirstClient a cs)
  unfolding first_client
  first_client_cases [] = inl (refl, tt)
  first_client_cases (c ∷ cs) = elim (Option-cases (parse c)) [
    | inl bad ↦ elim (first_client_cases cs) [
      | inl (e, passed) ↦ inl (rw bad e, (inl bad, passed))
      | inr (a, e, (before, d, after, q, passed, here, untrusted)) ↦ inr (
        a,
        rw bad e,
        (c ∷ before, d, after, ap (λ l. c ∷ l) q, (inl bad, passed), here, untrusted),
      )
    ]
    | inr (b, good) ↦ elim (Bool-cases (is_trusted_proxy ip cidrs b)) [
      | inr client ↦ inr (b, rw (good, client) refl, ([], c, cs, refl, tt, good, client))
      | inl proxy ↦ elim (first_client_cases cs) [
        | inl (e, passed) ↦ inl (rw (good, proxy) e, (inr (b, good, proxy), passed))
        | inr (a, e, (before, d, after, q, passed, here, untrusted)) ↦ inr (
          a,
          rw (good, proxy) e,
          (
            c ∷ before,
            d,
            after,
            ap (λ l. c ∷ l) q,
            (inr (b, good, proxy), passed),
            here,
            untrusted,
          ),
        )
      ]
    ]
  ]

  -- A peer that is no trusted proxy is recorded under its own address, whatever it writes into
  -- `X-Forwarded-For`.
  pub untrusted_peer :
      (r : Request) (remote : String) (peer : Address)
      → r.remote_addr ≡ some remote
      → remote ≢ ""
      → parse remote ≡ some peer
      → is_trusted_proxy ip cidrs peer ≡ false
      → client_ip ip cidrs r ≡ some (text peer)
  unfolding client_ip known_ip peer_ip
  untrusted_peer r remote peer e ne good untrusted =
      let set : str_eq remote "" ≡ false = ground (arith, eq_iff remote "") in
      rw (e, set, good, untrusted) refl

  -- Behind a trusted proxy that sends the header, the address is that of the entry of the header that
  -- is an address and no trusted proxy and has only entries to its right that are no address or that
  -- of a trusted proxy; if all entries are so, it is the peer's.
  pub trusted_peer :
      (r : Request) (remote header : String) (peer : Address)
      → r.remote_addr ≡ some remote
      → remote ≢ ""
      → r.forwarded_for ≡ some header
      → header ≢ ""
      → parse remote ≡ some peer
      → is_trusted_proxy ip cidrs peer ≡ true
      → ((client_ip ip cidrs r ≡ some (text peer)) × All IsPassedOver (entries header))
        ⊎ ((a : Address) × (client_ip ip cidrs r ≡ some (text a)) × IsLastClient a (entries header))
  unfolding client_ip known_ip peer_ip behind_proxy candidates
  trusted_peer r remote header peer e ne h nh good trusted =
      let set : str_eq remote "" ≡ false = ground (arith, eq_iff remote "") in
      let sent : str_eq header "" ≡ false = ground (arith, eq_iff header "") in
      elim (first_client_cases (candidates ip cidrs header)) [
        | inl (q, passed) ↦ inl (
          rw (e, set, h, sent, good, trusted, q) refl,
          (All-reverse_onto (entries header) [] passed).0,
        )
        | inr (a, q, first) ↦ inr (
          a,
          rw (e, set, h, sent, good, trusted, q) refl,
          IsLastClient-of_reversed a (entries header) first,
        )
      ]
