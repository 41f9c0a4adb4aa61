-- ===== src/Gate/Types.antt =====
-- The types of internal/gate/gate.go: deliveries, results, drafts and the gate's state, with the
-- deliverer and the rate limiter that a gate is built over.
use whatsapp_connect_mcp.Prelude.{
  ℕ, ◌*◌, String, Bool, true, false, ◌&&◌, Option, none, some, List, [], ◌∷◌, ltb, ◌==◌, ◌≡◌, refl,
  Result, if◌then◌else◌, eq_iff, arith,
}
use whatsapp_connect_mcp.Prelude.Dict.{Dict}
use whatsapp_connect_mcp.Prelude.Int.{ℤ, to_int64, eqb_ℤ, eq_of_parts}

-- A Go slice of texts. `none` is the nil slice, which `reflect.DeepEqual` tells from an empty one.
abbrev pub Slice : Type 0
Slice = Option (List String)

abbrev pub items : Slice → List String
items none = []
items (some xs) = xs

pub record Delivery : Type 0 where
  pub kind : String
  pub to : String
  pub text : String
  pub path : String
  pub quoted_id : String
  pub message_ids : Slice
  pub author : String
  pub options : Slice
  pub selectable_count : ℤ
  pub fire_at : ℤ

-- An immediate delivery of a kind to a recipient: Go's literal with the other fields left zero.
abbrev pub delivery : String → String → Delivery
delivery kind to = record {
  kind = kind;
  to = to;
  text = "";
  path = "";
  quoted_id = "";
  message_ids = none;
  author = "";
  options = none;
  selectable_count = ℤ.pos 0;
  fire_at = ℤ.pos 0;
}

abbrev pub same_items : List String → List String → Bool
same_items [] [] = true
same_items (x ∷ xs) (y ∷ ys) = x == y && same_items xs ys
same_items _ _ = false

abbrev pub same_slice : Slice → Slice → Bool
same_slice none none = true
same_slice (some xs) (some ys) = same_items xs ys
same_slice _ _ = false

-- reflect.DeepEqual at two deliveries
unfoldable pub deep_equal : Delivery → Delivery → Bool
deep_equal a b =
    a.kind == b.kind
    && (a.to == b.to
        && (a.text == b.text
            && (a.path == b.path
                && (a.quoted_id == b.quoted_id
                    && (same_slice a.message_ids b.message_ids
                        && (a.author == b.author
                            && (same_slice a.options b.options
                                && (eqb_ℤ a.selectable_count b.selectable_count
                                    && eqb_ℤ a.fire_at b.fire_at))))))))

same_items_sound : (xs ys : List String) → same_items xs ys ≡ true → xs ≡ ys
same_items_sound [] [] h = refl
same_items_sound [] (y ∷ ys) h = ground arith
same_items_sound (x ∷ xs) [] h = ground arith
same_items_sound (x ∷ xs) (y ∷ ys) h = ground (arith, eq_iff x y, same_items_sound xs ys)

same_slice_sound : (a b : Slice) → same_slice a b ≡ true → a ≡ b
same_slice_sound none none h = refl
same_slice_sound none (some ys) h = ground arith
same_slice_sound (some xs) none h = ground arith
same_slice_sound (some xs) (some ys) h = ground (arith, same_items_sound xs ys)

eqb_ℤ_sound : (a b : ℤ) → eqb_ℤ a b ≡ true → a ≡ b
eqb_ℤ_sound a b h = eq_of_parts a b (ground arith)

-- Deliveries that `deep_equal` accepts are equal.
pub deep_equal_sound : (a b : Delivery) → deep_equal a b ≡ true → a ≡ b
unfolding deep_equal
deep_equal_sound a b h = ground (
  arith,
  eq_iff a.kind b.kind,
  eq_iff a.to b.to,
  eq_iff a.text b.text,
  eq_iff a.path b.path,
  eq_iff a.quoted_id b.quoted_id,
  eq_iff a.author b.author,
  same_slice_sound a.message_ids b.message_ids,
  same_slice_sound a.options b.options,
  eqb_ℤ_sound a.selectable_count b.selectable_count,
  eqb_ℤ_sound a.fire_at b.fire_at,
)

-- gate.Result
pub record SendResult : Type 0 where
  pub sent : Bool
  pub message_id : String
  pub draft_token : String
  pub preview : String

pub data Error : Type 0 where
  invalid : String → Error  -- what Validate answered
  token_failed : Error  -- newDraftToken found no randomness
  draft_invalid : Error  -- errDraftInvalid
  rate_limited : ℕ → Error  -- ErrRateLimited, with the seconds to wait
  deliver_failed : String → Error  -- what Deliver answered

pub record DraftEntry : Type 0 where
  pub delivery : Delivery
  pub preview : String
  pub expires : ℕ

-- Times are nanoseconds.
abbrev pub second : ℕ
second = 1_000_000_000

abbrev pub draft_ttl : ℕ
draft_ttl = 300 * second

abbrev pub draft_cap : ℕ
draft_cap = 32

abbrev pub floor_seconds : ℕ
floor_seconds = 5

-- The interface Deliverer over the state `W` of what stands behind it.
pub record Deliverer (W : Type 0) : Type 0 where
  pub deliver : Delivery → W → Result String String × W
  pub validate : Delivery → W → Option String

-- rate.Limiter of golang.org/x/time/rate, over its own state `L`: `allow_n now` is AllowN(now, 1).
pub record Limiter (L : Type 0) : Type 0 where
  pub allow_n : ℕ → L → Bool × L

-- What a Gate changes. `order` holds the draft tokens in insertion order, oldest first.
pub record State (W L : Type 0) : Type 0 where
  pub world : W
  pub limiter : L
  pub drafts : Dict DraftEntry
  pub order : List String

-- The rate that New gives the limiter: the configured seconds, raised to the floor.
unfoldable pub raise_per_seconds : ℤ → ℕ
raise_per_seconds (ℤ.pos n) = if ltb n floor_seconds then floor_seconds else n
raise_per_seconds (ℤ.negsuc n) = floor_seconds

-- time.Duration(perSeconds) * time.Second, the interval of a rate token, which wraps around.
unfoldable pub token_interval : ℕ → ℤ
unfolding to_int64
token_interval per_seconds = to_int64 (per_seconds * second)

-- The burst that New gives the limiter, at least 1.
unfoldable pub raise_burst : ℤ → ℕ
raise_burst (ℤ.pos n) = if ltb n 1 then 1 else n
raise_burst (ℤ.negsuc n) = 1
