-- ===== src/Idempotency/Canonical.antt =====
-- canonicalJson and requestFingerprint of idempotency.ts.
use canton_evmcrosschain.Prelude.{String, Bool, List, [], ◌∷◌, concat, if◌then◌else◌}
use canton_evmcrosschain.Failures.{registry, invalid_argument, Result, ok, err, ◌>>=◌}

-- What the platform does with texts: the JSON text of a text, the order of texts that `sort` takes,
-- and the hexadecimal digest of SHA-256.
pub record Texts : Type 0 where
  pub quote : String → String
  pub before : String → String → Bool
  pub sha256 : String → String

-- A value of the language. A finite number is its JSON text, and `undefined`, functions, symbols and
-- big integers are told from the rest only.
mutual
  pub data Json : Type 0 where
    null : Json
    boolean : Bool → Json
    number : String → Json
    non_finite : Json
    string : String → Json
    array : Items → Json
    object : Members → Json
    undefined_value : Json
    unsupported : Json

  pub data Items : Type 0 where
    no_items : Items
    item : Json → Items → Items

  pub data Members : Type 0 where
    no_members : Members
    member : String → Json → Members → Members

abbrev pub refused : Result String
refused = err (registry invalid_argument)

-- The texts of the parts, joined by commas.
unfoldable pub joined : List String → String
joined [] = ""
joined (s ∷ []) = s
joined (s ∷ t ∷ rest) = concat s (concat "," (joined (t ∷ rest)))

-- All results, or the first failure.
unfoldable pub all_ok : List (Result String) → Result (List String)
all_ok [] = ok []
all_ok (r ∷ rest) = do s ← r; ss ← all_ok rest; ok (s ∷ ss)

module _ (texts : Texts) where
  -- `keys.sort()`, on the members with their texts
  unfoldable pub insert_member :
      String × Result String → List (String × Result String) → List (String × Result String)
  insert_member (k, r) [] = (k, r) ∷ []
  insert_member (k, r) ((j, s) ∷ rest) =
      if texts.before k j then (k, r) ∷ (j, s) ∷ rest else (j, s) ∷ insert_member (k, r) rest

  -- `${JSON.stringify(key)}:${canonicalJson(object[key])}`
  abbrev pub member_text : String × Result String → Result String
  member_text (k, r) = r >>= λ s. ok (concat (texts.quote k) (concat ":" s))

  unfoldable pub member_texts : List (String × Result String) → List (Result String)
  member_texts [] = []
  member_texts (m ∷ rest) = member_text m ∷ member_texts rest

  abbrev pub wrapped : String → String → Result (List String) → Result String
  wrapped left right parts = parts >>= λ ss. ok (concat left (concat (joined ss) right))

  unfoldable mutual
    unfolding insert_member member_texts all_ok joined

    pub canonical_json : Json → Result String
    canonical_json null = ok "null"
    canonical_json (boolean b) = ok (if b then "true" else "false")
    canonical_json (number s) = ok s
    canonical_json non_finite = refused
    canonical_json (string s) = ok (texts.quote s)
    canonical_json (array items) = wrapped "[" "]" (all_ok (canonical_items items))
    canonical_json (object members) =
        wrapped "{" "}" (all_ok (member_texts (canonical_members members)))
    canonical_json undefined_value = refused
    canonical_json unsupported = refused

    pub canonical_items : Items → List (Result String)
    canonical_items no_items = []
    canonical_items (item j items) = canonical_json j ∷ canonical_items items

    -- The members in the order of their keys.
    pub canonical_members : Members → List (String × Result String)
    canonical_members no_members = []
    canonical_members (member k j members) =
        insert_member (k, canonical_json j) (canonical_members members)

  unfoldable pub request_fingerprint : Json → Result String
  unfolding canonical_json
  request_fingerprint request = do
    s ← canonical_json request
    ok (concat "sha256:" (texts.sha256 s))
