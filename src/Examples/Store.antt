-- ===== src/Examples/Store.antt =====
-- The theorems on the link store and on the cache, on small ones.
use url_shortener_100x.Prelude.{
  ℕ, ◌≡◌, ◌≢◌, refl, none, some, List, [], ◌∷◌, arith, if◌then◌else◌, text_dec, if_pos, if_neg, All,
  raise, key_error,
}
use url_shortener_100x.Prelude.Table
use url_shortener_100x.Store.Links.{Link, LinkStore, Attempt, commits, create, get, reached}
use url_shortener_100x.Store.Links.Laws.{create-taken}
use url_shortener_100x.Store.Lru
use url_shortener_100x.Store.Lru.{LruCache, Entry}
use url_shortener_100x.Store.Lru.Bounds.{new_cache-IsValid}
use url_shortener_100x.Store.Lru.Recency.{Op, read, op_key, run, get-run-put}

abbrev one_link : LinkStore
one_link = record {
  links = (65 ∷ [], record { target = 97 ∷ []; created_ms = 1; expires_ms = none }) ∷ [];
  link_hits = (65 ∷ [], 4) ∷ [];
}

abbrev first : Link
first = record { code = 65 ∷ []; target = 97 ∷ []; created_ms = 1; expires_ms = none; hits = 0 }

free_row : Table.get one_link.links (66 ∷ []) ≡ none
unfolding Table.get
free_row = if_neg (text_dec (65 ∷ []) (66 ∷ [])) (λ e. absurd (ground arith)) _ _

taken_row :
    Table.get one_link.links (65 ∷ [])
    ≡ some (record { target = 97 ∷ []; created_ms = 1; expires_ms = none })
unfolding Table.get
taken_row = if_pos (text_dec (65 ∷ []) (65 ∷ [])) refl _ _

taken_code : get one_link (65 ∷ []) ≡ some first
unfolding get
taken_code = rw (taken_row, get) refl

abbrev at_1000 : Attempt
at_1000 = record { clock = 1000; write = commits }

create-taken_example :
    create one_link (65 ∷ []) (98 ∷ []) none none at_1000 ≡ (one_link, raise key_error)
create-taken_example =
    create-taken one_link (65 ∷ []) (98 ∷ []) none none at_1000 first refl taken_code

abbrev small : LruCache ℕ
small = Lru.new_cache 2

abbrev few : List (Op ℕ)
few = read (66 ∷ []) 5 ∷ []

few-other : All (λ o. op_key o ≢ 65 ∷ []) few
few-other = (λ e. absurd (ground arith), tt)

get-run-put_example :
    (Lru.get (run (Lru.put small (65 ∷ []) 7 (some 20)) few) (65 ∷ []) 12).1
    ≡ (if reached (some 20) 12 then none else some 7)
get-run-put_example =
    get-run-put small (65 ∷ []) 7 (some 20) few 12 (new_cache-IsValid 2) few-other
      (unfold Lru.new_cache in omega arith)
