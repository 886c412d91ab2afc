-- ===== src/Redis/Clients.antt =====
-- `get_redis_client` of apps/common/redis.py, which keeps one client for each event loop. A loop is a
-- number. The client that the n-th call of `from_url` makes is a parameter.
use django_ninja_rbac_authen.Prelude.{
  ℕ, suc, ◌<◌, ◌≡◌, ◌≢◌, refl, sym, ◌∙◌, subst, inl, inr, Bool, true, false, not, Option, none,
  some, List, [], ◌∷◌, arith, ◌==◌, ==_iff, Bool-cases, Option-cases, find, find-All, select, All,
  All-map, All-select, Pairwise, Pairwise-select, Pairwise-find,
}

module _ {Client : Type 0} (from_url : ℕ → Client) where
  -- `_clients`, and how many clients were made
  pub record Clients : Type 0 where
    pub entries : List (ℕ × Client)
    pub made : ℕ

  abbrev is_of : ℕ → ℕ × Client → Bool
  is_of loop e = e.0 == loop

  client_or_new : ℕ → Clients → Option (ℕ × Client) → Client × Clients
  client_or_new loop s (some e) = (e.1, s)
  client_or_new loop s none =
      let client = from_url s.made in
      (client, record { entries = (loop, client) ∷ s.entries; made = suc s.made })

  -- `get_redis_client` in a running loop
  unfoldable pub get_redis_client : ℕ → Clients → Client × Clients
  unfolding client_or_new
  get_redis_client loop s = client_or_new loop s (find (is_of loop) s.entries)

  -- A `WeakKeyDictionary` drops the entry of a loop that no longer exists.
  unfoldable pub forget : ℕ → Clients → Clients
  forget loop s = record s { entries = select (λ e. not (is_of loop e)) s.entries }

  pub data Use : Type 0 where
    got : (loop : ℕ) → Use
    gone : (loop : ℕ) → Use

  unfoldable pub run : List Use → Clients → Clients
  unfolding get_redis_client forget
  run [] s = s
  run (got loop ∷ us) s = run us (get_redis_client loop s).1
  run (gone loop ∷ us) s = run us (forget loop s)

  -- The loop does not end during these uses.
  abbrev pub Lives : ℕ → List Use → Type 0
  Lives loop [] = Unit
  Lives loop (got _ ∷ us) = Lives loop us
  Lives loop (gone other ∷ us) = (other ≢ loop) × Lives loop us

  find-select_other :
      (loop other : ℕ) (es : List (ℕ × Client))
      → other ≢ loop
      → find (is_of loop) (select (λ e. not (is_of other e)) es) ≡ find (is_of loop) es
  find-select_other loop other [] h = refl
  find-select_other loop other (e ∷ es) h = ground (arith, find-select_other loop other es h)

  -- A client that is there stays there when any loop asks.
  got-find :
      (loop other : ℕ) (s : Clients) (e : ℕ × Client)
      → find (is_of loop) s.entries ≡ some e
      → find (is_of loop) (get_redis_client other s).1.entries ≡ some e
  unfolding get_redis_client
  got-find loop other s e h = elim (Option-cases (find (is_of other) s.entries)) [
    | inr (f, known) ↦ rw known h
    | inl new ↦ rw new (elim (Bool-cases (other == loop)) [
      | inl same ↦
          let none_found =
            subst (λ k. find (is_of k) s.entries ≡ none) ((==_iff other loop).0 same) new in
          absurd (ground (arith, h, none_found))
      | inr differs ↦ rw differs h
    ])
  ]

  run-find :
      (loop : ℕ) (us : List Use) (s : Clients) (e : ℕ × Client)
      → Lives loop us
      → find (is_of loop) s.entries ≡ some e
      → find (is_of loop) (run us s).entries ≡ some e
  unfolding run
  run-find loop [] s e l h = h
  run-find loop (got other ∷ us) s e l h =
      run-find loop us (get_redis_client other s).1 e l (got-find loop other s e h)
  run-find loop (gone other ∷ us) s e l h =
      run-find loop us (forget other s) e l.1
        (unfold forget in find-select_other loop other s.entries l.0 ∙ h)

  got_entry :
      (loop : ℕ) (s : Clients)
      → (e : ℕ × Client) × (find (is_of loop) (get_redis_client loop s).1.entries ≡ some e)
        × ((get_redis_client loop s).0 ≡ e.1)
  unfolding get_redis_client
  got_entry loop s = elim (Option-cases (find (is_of loop) s.entries)) [
    | inr (e, known) ↦ (e, rw known known, rw known refl)
    | inl new ↦ ((loop, from_url s.made), rw new (rw ((==_iff loop loop).1 refl) refl), rw new refl)
  ]

  get-known :
      (loop : ℕ) (s : Clients) (e : ℕ × Client)
      → find (is_of loop) s.entries ≡ some e
      → (get_redis_client loop s).0 ≡ e.1
  unfolding get_redis_client
  get-known loop s e h = rw h refl

  -- While a loop lives it is handed the same client each time, whatever other loops come and go.
  get_redis_client-kept :
      (loop : ℕ) (us : List Use) (s : Clients)
      → Lives loop us
      → (get_redis_client loop (run us (get_redis_client loop s).1)).0 ≡ (get_redis_client loop s).0
  get_redis_client-kept loop us s l =
      let (e, found, is_e) = got_entry loop s in
      let later = run-find loop us (get_redis_client loop s).1 e l found in
      get-known loop (run us (get_redis_client loop s).1) e later ∙ sym is_e

  -- Each kept client is one of those made, and no two entries hold the same.
  pub record IsSeparate (s : Clients) : Type 0 where
    pub made_here : All (λ e. (n : ℕ) × (n < s.made) × (e.1 ≡ from_url n)) s.entries
    pub apart : Pairwise (λ (e f : ℕ × Client). e.1 ≢ f.1) s.entries

  module _ (fresh : (m n : ℕ) → from_url m ≡ from_url n → m ≡ n) where
    new_apart : (n : ℕ) (e : ℕ × Client) → (m : ℕ) × (m < n) × (e.1 ≡ from_url m) → from_url n ≢ e.1
    new_apart n e (m, lt, is_m) q = let k = fresh n m (q ∙ is_m) in absurd (omega arith)

    client_or_new-IsSeparate :
        (loop : ℕ) (s : Clients) (o : Option (ℕ × Client))
        → IsSeparate s
        → IsSeparate (client_or_new loop s o).1
    unfolding client_or_new
    client_or_new-IsSeparate loop s (some e) v = v
    client_or_new-IsSeparate loop s none v = record {
      made_here = (
        (s.made, omega arith, refl),
        All-map _ _ s.entries (λ e (n, lt, is_n). (n, omega arith, is_n)) v.made_here,
      );
      apart = (All-map _ _ s.entries (λ e h. new_apart s.made e h) v.made_here, v.apart);
    }

    forget-IsSeparate : (loop : ℕ) (s : Clients) → IsSeparate s → IsSeparate (forget loop s)
    unfolding forget
    forget-IsSeparate loop s v = record {
      made_here = All-select _ (λ e. not (is_of loop e)) s.entries v.made_here;
      apart = Pairwise-select (λ e f. e.1 ≢ f.1) (λ e. not (is_of loop e)) s.entries v.apart;
    }

    run-IsSeparate : (us : List Use) (s : Clients) → IsSeparate s → IsSeparate (run us s)
    unfolding run get_redis_client
    run-IsSeparate [] s v = v
    run-IsSeparate (got loop ∷ us) s v =
        run-IsSeparate us (get_redis_client loop s).1
          (client_or_new-IsSeparate loop s (find (is_of loop) s.entries) v)
    run-IsSeparate (gone loop ∷ us) s v =
        run-IsSeparate us (forget loop s) (forget-IsSeparate loop s v)

    ne_of_find : (a b : ℕ) (e : ℕ × Client) → a ≢ b → is_of a e ≡ true → is_of b e ≡ false
    ne_of_find a b e ne h = elim (Bool-cases (is_of b e)) [
      | inl t ↦ absurd (ne (sym ((==_iff e.0 a).0 h) ∙ (==_iff e.0 b).0 t))
      | inr f ↦ f
    ]

    other_client :
        (a b : ℕ) (s : Clients) (e : ℕ × Client)
        → IsSeparate s
        → a ≢ b
        → find (is_of a) s.entries ≡ some e
        → (get_redis_client b s).0 ≢ e.1
    unfolding get_redis_client
    other_client a b s e v ne h = elim (Option-cases (find (is_of b) s.entries)) [
      | inr (f, known) ↦ rw known (λ q.
          Pairwise-find (λ e f. e.1 ≢ f.1) (λ e f d q. d (sym q)) (is_of a) (is_of b) s.entries e f
            (λ x t. ne_of_find a b x ne t) v.apart h known (sym q))
      | inl new ↦ rw new (
          new_apart s.made e (
            find-All (λ y. (n : ℕ) × (n < s.made) × (y.1 ≡ from_url n)) (is_of a) s.entries e h
              v.made_here))
    ]

    no_clients-IsSeparate : IsSeparate (record { entries = []; made = 0 })
    no_clients-IsSeparate = record { made_here = tt; apart = tt }

    -- While a loop lives it is handed the same client each time, and no other loop is handed this
    -- client, whatever loops ask and end before and in between, if `from_url` never makes the same client twice.
    pub one_client_each :
        (a b : ℕ) (before between : List Use)
        → a ≢ b
        → Lives a between
        → let s = run before (record { entries = []; made = 0 }) in
          let t = run between (get_redis_client a s).1 in
          ((get_redis_client a t).0 ≡ (get_redis_client a s).0)
          × ((get_redis_client b t).0 ≢ (get_redis_client a s).0)
    one_client_each a b before between ne lives =
        let s = run before (record { entries = []; made = 0 }) in
        let (e, found, is_e) = got_entry a s in
        let later = run-find a between (get_redis_client a s).1 e lives found in
        let safe = run-IsSeparate before _ no_clients-IsSeparate in
        let safe_then = run-IsSeparate (got a ∷ between) s safe in
        (
          get_redis_client-kept a between s lives,
          λ q.
              other_client a b (run between (get_redis_client a s).1) e (unfold run in safe_then) ne
                later (q ∙ is_e),
        )
