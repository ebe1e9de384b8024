-- ===== src/Config/Editor/Overridden.antt =====
-- Two dictionaries that differ in one block stay so behind the overrides from the environment.
use virtual_helmsman.Prelude.{
  String, false, Option, none, some, ◌≡◌, refl, subst, sym, ◌∙◌, truthy, text_eq, eq_iff,
  Bool-cases, inl, inr,
}
use virtual_helmsman.Prelude.Options.{guard, ◌>>◌}
use virtual_helmsman.Json.{Json, null, bool, int, float, str, arr, obj, Fields, get, put}
use virtual_helmsman.Json.Dict.{get-put_self, get-put_ne}
use virtual_helmsman.Config.Fields.{only, one_of}
use virtual_helmsman.Config.Fields.Keys.{only-put}
use virtual_helmsman.Config.App.{app_keys, assign_in, override_by}

-- Two dictionaries with the same keys and values, but for the block of the language model.
pub record SameBut (fs gs : Fields) (d e : Fields) : Type 0 where
  pub llm : get "llm" d ≡ some (obj fs)
  pub llm' : get "llm" e ≡ some (obj gs)
  pub others : (key : String) → text_eq "llm" key ≡ false → get key e ≡ get key d
  pub keys : only app_keys e ≡ only app_keys d

pub SameBut-eq : {fs gs d d' e : Fields} → some d ≡ some d' → SameBut fs gs d e → SameBut fs gs d' e
SameBut-eq {fs} {gs} {e} h same = subst (λ x. SameBut fs gs x e) (cc) same

module _ {fs gs d e : Fields} (same : SameBut fs gs d e) where
  put-SameBut :
      (key : String) (v : Json)
      → text_eq key "llm" ≡ false
      → SameBut fs gs (put key v d) (put key v e)
  put-SameBut key v ne = record {
    llm = get-put_ne "llm" key v d ne ∙ same.llm;
    llm' = get-put_ne "llm" key v e ne ∙ same.llm';
    others = λ j ne'. elim (Bool-cases (text_eq key j)) [
      | inl equal ↦
          subst (λ x. get x (put key v e) ≡ get x (put key v d)) ((eq_iff key j).0 equal)
            (get-put_self key v e ∙ sym (get-put_self key v d))
      | inr other ↦
          get-put_ne j key v e other ∙ same.others j ne' ∙ sym (get-put_ne j key v d other)
    ];
    keys =
        only-put app_keys key v e
        ∙ (λ i. guard (one_of app_keys key) >> same.keys i)
        ∙ sym (only-put app_keys key v d);
  }

  assign_in-SameBut :
      (block key value : String)
      → text_eq block "llm" ≡ false
      → text_eq "llm" block ≡ false
      → (d' : Fields) → assign_in (get block d) block key value d ≡ some d'
      → (e' : Fields) × (assign_in (get block e) block key value e ≡ some e') × SameBut fs gs d' e'
  assign_in-SameBut block key value ne ne' d' h = rw (same.others block ne') (go (get block d) h)
    where
      go :
          (o : Option Json)
          → assign_in o block key value d ≡ some d'
          → (e' : Fields) × (assign_in o block key value e ≡ some e') × SameBut fs gs d' e'
      go none k = (_, refl, SameBut-eq k (put-SameBut block _ ne))
      go (some (obj bs)) k = (_, refl, SameBut-eq k (put-SameBut block _ ne))
      go (some null) k = cc
      go (some (bool b)) k = cc
      go (some (int n)) k = cc
      go (some (float n)) k = cc
      go (some (str s)) k = cc
      go (some (arr vs)) k = cc

  pub override_by-SameBut :
      (o : Option String) (block key : String)
      → text_eq block "llm" ≡ false
      → text_eq "llm" block ≡ false
      → (d' : Fields) → override_by o block key d ≡ some d'
      → (e' : Fields) × (override_by o block key e ≡ some e') × SameBut fs gs d' e'
  override_by-SameBut none block key ne ne' d' h = (e, refl, SameBut-eq h same)
  override_by-SameBut (some v) block key ne ne' d' h = elim (Bool-cases (truthy v)) [
    | inl full ↦ rw full (assign_in-SameBut block key v ne ne' d' (rw full at h))
    | inr blank ↦ (e, rw blank refl, SameBut-eq (rw blank at h) same)
  ]
