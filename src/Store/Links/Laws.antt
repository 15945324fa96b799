-- ===== src/Store/Links/Laws.antt =====
-- src/shortener/store.py, `create` and `get` together.
use mathlib.Core.Logic.{ite}
use url_shortener_100x.Prelude.{
  ℕ, zero, suc, ◌≡◌, ◌≢◌, ◌⊎◌, inl, inr, refl, Option, none, some, arith, Text, text_dec, ok, raise,
  key_error, other_error, Option-cases,
}
use url_shortener_100x.Prelude.Table
use url_shortener_100x.Store.Links.{
  Link, Row, LinkStore, Write, commits, fails_after, Attempt, create, insert, refuse_insert, get,
  now_or, expiry,
}

module _ (s : LinkStore) (code target : Text) (ttl now_arg : Option ℕ) (at : Attempt) where
  abbrev pub created : Link
  created = record {
    code = code;
    target = target;
    created_ms = now_or now_arg at.clock;
    expires_ms = expiry ttl (now_or now_arg at.clock);
    hits = 0;
  }

  abbrev with_row : LinkStore
  with_row = record s {
    links = Table.put s.links code (record {
      target = target;
      created_ms = created.created_ms;
      expires_ms = created.expires_ms;
    });
  }

  -- The link has a row now; the code had none, and nothing else has changed.
  pub record Inserted (s2 : LinkStore) : Type 0 where
    pub free : get s code ≡ none
    pub counts : s2.link_hits ≡ s.link_hits
    pub reads : (j : Text) → get s2 j ≡ ite (text_dec code j) (some created) (get s j)

  with_row-Inserted : get s code ≡ none → Inserted with_row
  unfolding get
  with_row-Inserted h = record {
    free = h;
    counts = refl;
    reads = λ j. ground (
      arith,
      Table.get-put s.links code j (record {
        target = target;
        created_ms = created.created_ms;
        expires_ms = created.expires_ms;
      }),
    );
  }

  -- The three ways in which a call ends: the link is stored, its code is taken, or the database
  -- fails, before the row or behind it.
  abbrev pub Ends : Type 0
  Ends =
      ((s2 : LinkStore) × (create s code target ttl now_arg at ≡ (s2, ok created)) × Inserted s2)
      ⊎ ((l : Link) × (get s code ≡ some l)
          × (create s code target ttl now_arg at ≡ (s, raise key_error)))
      ⊎ ((s2 : LinkStore) × (create s code target ttl now_arg at ≡ (s2, raise other_error))
          × (at.write ≢ commits)
          × ((s2 ≡ s) ⊎ Inserted s2))

  create-absent :
      Table.get s.links code ≡ none
      → create s code target ttl now_arg at ≡ insert at.write s with_row created
  unfolding create
  create-absent h = rw (h, create) refl

  create-present :
      (r : Row)
      → Table.get s.links code ≡ some r
      → create s code target ttl now_arg at ≡ refuse_insert at.write s
  unfolding create
  create-present r h = rw (h, create) refl

  insert-Ends :
      (w : Write)
      → at.write ≡ w
      → create s code target ttl now_arg at ≡ insert w s with_row created
      → get s code ≡ none
      → Ends
  unfolding insert
  insert-Ends commits e made h = inl (with_row, made, with_row-Inserted h)
  insert-Ends (fails_after zero) e made h =
      inr (inr (s, made, (λ c. absurd (ground arith)), inl refl))
  insert-Ends (fails_after (suc n)) e made h =
      inr (inr (with_row, made, (λ c. absurd (ground arith)), inr (with_row-Inserted h)))

  refuse_insert-Ends :
      (w : Write) (l : Link)
      → at.write ≡ w
      → create s code target ttl now_arg at ≡ refuse_insert w s
      → get s code ≡ some l
      → Ends
  unfolding refuse_insert
  refuse_insert-Ends commits l e made h = inr (inl (l, h, made))
  refuse_insert-Ends (fails_after zero) l e made h =
      inr (inr (s, made, (λ c. absurd (ground arith)), inl refl))
  refuse_insert-Ends (fails_after (suc n)) l e made h = inr (inl (l, h, made))

  get-present : (r : Row) → Table.get s.links code ≡ some r → (l : Link) × (get s code ≡ some l)
  unfolding get
  get-present r h = (
    record {
      code = code;
      target = r.target;
      created_ms = r.created_ms;
      expires_ms = r.expires_ms;
      hits = 0;
    },
    rw (h, get) refl,
  )

  get-absent : Table.get s.links code ≡ none → get s code ≡ none
  unfolding get
  get-absent h = rw (h, get) refl

  pub create-Ends : Ends
  create-Ends = elim (Option-cases (Table.get s.links code)) [
    | inl h ↦ insert-Ends at.write refl (create-absent h) (get-absent h)
    | inr (r, h) ↦
        let (l, there) = get-present r h in
        refuse_insert-Ends at.write l refl (create-present r h) there
  ]

  -- A code that has a row is refused where the database does not fail, and nothing is written.
  pub create-taken :
      (l : Link)
      → at.write ≡ commits
      → get s code ≡ some l
      → create s code target ttl now_arg at ≡ (s, raise key_error)
  create-taken l works h = elim create-Ends [
    | inl (s2, made, inserted) ↦ absurd (ground (arith, inserted.free))
    | inr (inl (l, there, made)) ↦ made
    | inr (inr (s2, made, fails, after)) ↦ absurd (fails works)
  ]
