-- ===== src/App/Fleet/Kept.antt =====
-- src/shortener/app.py and ids.py, what the links of the shared store may become.
use url_shortener_100x.Prelude.{
  ℕ, ◌+◌, zero, suc, ◌≡◌, inl, inr, refl, true, Option, none, some, Text, arith, Result, ok,
  Result-cases,
}
use url_shortener_100x.Store.Links
use url_shortener_100x.Store.Links.{Attempt, Link, LinkStore}
use url_shortener_100x.Store.Links.Laws.{create-Ends}
use url_shortener_100x.Store.Lru.{LruCache}
use url_shortener_100x.Ids.Allocator.{Allocator, attempt, allocate}
use url_shortener_100x.App.Body.{must_be_http}
use url_shortener_100x.App.Resolve.{Coherent}

-- Every stored link is there with its target and expiry.
abbrev pub Keeps : LinkStore → LinkStore → Type 0
Keeps s t = (code : Text) (l : Link) → Links.get s code ≡ some l → Links.get t code ≡ some l

-- Every stored target is an http or https address.
abbrev pub IsHttp : LinkStore → Type 0
IsHttp s = (code : Text) (l : Link) → Links.get s code ≡ some l → must_be_http l.target ≡ true

pub get-links :
    (s t : LinkStore) (code : Text) → s.links ≡ t.links → Links.get s code ≡ Links.get t code
unfolding Links.get
get-links s t code e = rw e refl

pub Keeps-Coherent : (c : LruCache Text) (s t : LinkStore) → Keeps s t → Coherent c s → Coherent c t
Keeps-Coherent c s t keeps h = record {
  valid = h.valid;
  copied = λ code x hit.
      let (l, stored, same, time) = h.copied code x hit in (l, keeps code l stored, same, time);
}

-- What an allocation may leave: the old links, and one to the target if it succeeds.
pub record Allocated (target : Text) (s t : LinkStore) (made : Result Link) : Type 0 where
  pub keeps : Keeps s t
  pub only : IsHttp s → must_be_http target ≡ true → IsHttp t
  pub reads : (l : Link) → made ≡ ok l → (Links.get t l.code ≡ some l) × (l.target ≡ target)

module _ {G : Type 0} (next : G → Result Text × G) (target : Text) (ttl : Option ℕ)
    (attempts : ℕ → Attempt) where
  attempt-Allocated :
      (n : ℕ) (a : Allocator G) (s : LinkStore)
      → let (a2, t, made) = attempt next target ttl attempts n a s in Allocated target s t made
  unfolding attempt
  attempt-Allocated zero a s = record {
    keeps = λ code l h. h;
    only = λ h e. h;
    reads = λ l e. absurd (ground (arith, e));
  }
  attempt-Allocated (suc n) a s = elim (Result-cases (next a.generator).0) [
    | inl (e, drawn) ↦
        rw (drawn, attempt)
          (record {
            keeps = λ code l h. h;
            only = λ h e. h;
            reads = λ l e. absurd (ground (arith, e));
          })
    | inr (code, drawn) ↦ elim (create-Ends s code target ttl none (attempts n)) [
      | inl (s2, made, row) ↦
          rw (drawn, attempt, made)
            (record {
              keeps = λ j l h. ground (arith, row.reads j, h, row.free);
              only = λ h e j l found. ground (arith, row.reads j, found, h j l, e);
              reads = λ l e. (ground (arith, row.reads code, e), ground (arith, e));
            })
      | inr (inl (l, taken, made)) ↦
          rw (drawn, attempt, made)
            (attempt-Allocated n
              (record a { generator = (next a.generator).1; collisions = a.collisions + 1 }) s)
      | inr (inr (s2, made, fails, inl same)) ↦
          rw (drawn, attempt, made, same)
            (record {
              keeps = λ j l h. h;
              only = λ h e. h;
              reads = λ l e. absurd (ground (arith, e));
            })
      | inr (inr (s2, made, fails, inr row)) ↦
          rw (drawn, attempt, made)
            (record {
              keeps = λ j l h. ground (arith, row.reads j, h, row.free);
              only = λ h e j l found. ground (arith, row.reads j, found, h j l, e);
              reads = λ l e. absurd (ground (arith, e));
            })
    ]
  ]

  pub allocate-Allocated :
      (a : Allocator G) (s : LinkStore)
      → let (a2, t, made) = allocate next target ttl attempts a s in Allocated target s t made
  unfolding allocate
  allocate-Allocated a s = attempt-Allocated a.max_attempts a s
