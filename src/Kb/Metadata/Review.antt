-- ===== src/Kb/Metadata/Review.antt =====
-- voice_agent/kb/ingestion/metadata.py: a reviewer's decisions on the chunks of a batch. `str(v)` of
-- a JSON value that is no text is a parameter.
use virtual_helmsman.Prelude.{
  ℕ, suc, Char, code, chars, String, Bool, true, false, not, ◌&&◌, Option, none, some, List, [],
  ◌∷◌, ◌++◌, ltb, ◌==◌, length, text_eq, truthy, strip_chars, lower_code, if◌then◌else◌,
}
use virtual_helmsman.Json.{Json, str, arr, obj, get, is_truthy}
use virtual_helmsman.Kb.Metadata.{Text, Chunk, count_split}

abbrev pub min_edited_len : ℕ
min_edited_len = 50

pub record DecisionResult : Type 0 where
  pub kept : List Chunk
  pub approved : ℕ
  pub rejected : ℕ
  pub edited : ℕ
  pub default_approved : ℕ

abbrev pub all_rejected : DecisionResult → Bool
all_rejected result = elim result.kept [ [] ↦ true | _ ↦ false ]

pub data Action : Type 0 where
  approve reject edit other_action : Action

lower : List Char → List ℕ
lower [] = []
lower (c ∷ cs) = lower_code (code c) ∷ lower cs

codes_eq : List ℕ → List ℕ → Bool
codes_eq [] [] = true
codes_eq (a ∷ as') (b ∷ bs) = a == b && codes_eq as' bs
codes_eq _ _ = false

action_of_text : String → Action
unfolding lower codes_eq
action_of_text s =
    let word = lower (chars s) in
    if codes_eq word (lower (chars "reject"))
    then reject
    else if codes_eq word (lower (chars "edit"))
    then edit
    else if codes_eq word (lower (chars "approve"))
    then approve
    else other_action

-- str(d.get("action") or "approve").lower(), as far as it is compared: `str` of a value that is
-- no text is none of the three words
unfoldable pub action_of : Option Json → Action
unfolding action_of_text
action_of none = approve
action_of (some (str s)) = if truthy s then action_of_text s else approve
action_of (some v) = if is_truthy v then other_action else approve

-- a key of `decision_map`: `none` where the entry is passed over
pub data Key : Type 0 where
  passed_over unhashable other_key : Key
  key : String → Key

key_of_value : Option Json → Key
key_of_value none = passed_over
key_of_value (some (str s)) = if truthy s then key s else passed_over
key_of_value (some (arr xs)) = if is_truthy (arr xs) then unhashable else passed_over
key_of_value (some (obj fs)) = if is_truthy (obj fs) then unhashable else passed_over
key_of_value (some v) = if is_truthy v then other_key else passed_over

unfoldable pub key_of : Json → Key
unfolding key_of_value get
key_of (obj fs) = key_of_value (get "chunk_id" fs)
key_of _ = passed_over

abbrev pub is_unhashable : Key → Bool
is_unhashable unhashable = true
is_unhashable _ = false

abbrev pub names : String → Key → Bool
names id (key s) = text_eq s id
names id _ = false

-- a list or a dictionary as `chunk_id` is a TypeError
unfoldable pub all_hashable : List Json → Bool
unfolding key_of
all_hashable [] = true
all_hashable (d ∷ ds) = not (is_unhashable (key_of d)) && all_hashable ds

-- decision_map.get(id): the last decision that names the chunk
unfoldable pub decision_for : String → List Json → Option Json
unfolding key_of
decision_for id [] = none
decision_for id (d ∷ ds) = elim (decision_for id ds) [
  | some later ↦ some later
  | none ↦ if names id (key_of d) then some d else none
]

abbrev pub field_of : String → Json → Option Json
field_of k (obj fs) = get k fs
field_of k _ = none

abbrev pub with_text : Text → Chunk → Chunk
with_text new_text chunk = record chunk {
  text = new_text;
  chunk_length = length new_text;
  words_in_text = count_split new_text;
}

abbrev pub keep : Chunk → DecisionResult → DecisionResult
keep chunk r = record r { kept = r.kept ++ chunk ∷ [] }

abbrev pub no_result : DecisionResult
no_result = record { kept = []; approved = 0; rejected = 0; edited = 0; default_approved = 0 }

module _ (to_str : Json → String) where
  -- str(d.get("edited_text") or "")
  abbrev pub edited_text : Option Json → String
  edited_text none = ""
  edited_text (some (str s)) = s
  edited_text (some v) = if is_truthy v then to_str v else ""

  unfoldable pub new_text_of : Json → Text
  unfolding strip_chars get
  new_text_of d = strip_chars (chars (edited_text (field_of "edited_text" d)))

  abbrev pub decide : Action → Json → Chunk → DecisionResult → DecisionResult
  decide reject d chunk r = record r { rejected = suc r.rejected }
  decide edit d chunk r =
      if ltb (length (new_text_of d)) min_edited_len
      then record r { rejected = suc r.rejected }
      else record (keep (with_text (new_text_of d) chunk) r) { edited = suc r.edited }
  decide approve d chunk r = record (keep chunk r) { approved = suc r.approved }
  decide other_action d chunk r = record (keep chunk r) {
    default_approved = suc r.default_approved;
  }

  -- one round of the loop over the chunks
  unfoldable pub apply_decision : List Json → Chunk → DecisionResult → DecisionResult
  unfolding decision_for action_of new_text_of count_split
  apply_decision decisions chunk r = elim (decision_for chunk.chunk_id decisions) [
    | none ↦ record (keep chunk r) { default_approved = suc r.default_approved }
    | some d ↦ decide (action_of (field_of "action" d)) d chunk r
  ]

  unfoldable pub apply_all : List Json → List Chunk → DecisionResult → DecisionResult
  unfolding apply_decision
  apply_all decisions [] r = r
  apply_all decisions (chunk ∷ chunks) r =
      apply_all decisions chunks (apply_decision decisions chunk r)

  -- `apply_decisions`; `none` is the TypeError
  unfoldable pub apply_decisions : List Chunk → List Json → Option DecisionResult
  unfolding apply_all all_hashable
  apply_decisions chunks decisions =
      if all_hashable decisions then some (apply_all decisions chunks no_result) else none
