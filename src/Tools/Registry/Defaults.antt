-- ===== src/Tools/Registry/Defaults.antt =====
-- About the registration of the tools (src/dag_doctor/tools/registry.py and factory.py).
use dag_doctor.Base.{
  String, str_eq, eq_iff, Bool, true, false, not, ◌&&◌, ◌||◌, none, some, is_some, List, [], ◌∷◌,
  ◌++◌, any, all, append-nil, append_assoc, ◌≡◌, refl, sym, ap, ◌∙◌, arith,
}
use dag_doctor.Tools.Registry.{
  Tool, get, register, go_on, register_all, build_tools, register_default_tools,
}

module _ {ℓ} {A : Type ℓ} where
  -- Whether a name is taken.
  abbrev pub taken : String → List (Tool A) → Bool
  taken name tools = any (λ (t : Tool A). str_eq t.name name) tools

  -- Whether none of the names of some tools is taken, and whether they are all different.
  abbrev pub are_new : List (Tool A) → List (Tool A) → Bool
  are_new known tools = all (λ (t : Tool A). not (taken t.name known)) tools

  abbrev pub are_distinct : List (Tool A) → Bool
  are_distinct [] = true
  are_distinct (t ∷ ts) = are_new (t ∷ []) ts && are_distinct ts

  is_some-get :
      (name : String) (tools : List (Tool A)) → is_some (get name tools) ≡ taken name tools
  unfolding get
  is_some-get name [] = refl
  is_some-get name (t ∷ ts) = ground (arith, is_some-get name ts)

  taken-append :
      (name : String) (xs ys : List (Tool A))
      → taken name (xs ++ ys) ≡ taken name xs || taken name ys
  taken-append name [] ys = refl
  taken-append name (x ∷ xs) ys = ground (arith, taken-append name xs ys)

  are_new-append :
      (xs ys ts : List (Tool A))
      → are_new xs ts ≡ true
      → are_new ys ts ≡ true
      → are_new (xs ++ ys) ts ≡ true
  are_new-append xs ys [] h k = refl
  are_new-append xs ys (t ∷ ts) h k =
      ground (arith, taken-append t.name xs ys, are_new-append xs ys ts)

  register-new :
      (t : Tool A) (known : List (Tool A))
      → taken t.name known ≡ false
      → register t known ≡ some (known ++ t ∷ [])
  unfolding register
  register-new t known h = rw (is_some-get t.name known, h) refl

  register-taken :
      (t : Tool A) (known : List (Tool A)) → taken t.name known ≡ true → register t known ≡ none
  unfolding register
  register-taken t known h = rw (is_some-get t.name known, h) refl

  register_all-new :
      (tools known : List (Tool A))
      → are_distinct tools ≡ true
      → are_new known tools ≡ true
      → register_all tools known ≡ (known ++ tools, true)
  unfolding register_all go_on
  register_all-new [] known d n = ap (λ ts. (ts, true)) (sym (append-nil known))
  register_all-new (t ∷ ts) known d n =
      let free : taken t.name known ≡ false = ground arith in
      let later : are_new (known ++ t ∷ []) ts ≡ true =
        are_new-append known (t ∷ []) ts (ground arith) (ground arith) in
      ap (λ o. go_on o known (λ more. register_all ts more)) (register-new t known free)
      ∙ (register_all-new ts (known ++ t ∷ []) (ground arith) later
          ∙ ap (λ us. (us, true)) (append_assoc known (t ∷ []) ts))

  taken-last :
      (name : String) (known ts : List (Tool A))
      → taken name ts ≡ true
      → taken name (known ++ ts) ≡ true
  taken-last name known ts h = taken-append name known ts ∙ ground arith

register_all-again {ℓ} :
    {A : Type ℓ} (t : Tool A) (ts known : List (Tool A))
    → register_all (t ∷ ts) (known ++ t ∷ ts) ≡ (known ++ t ∷ ts, false)
unfolding register_all go_on
register_all-again t ts known =
    let self : taken t.name (t ∷ ts) ≡ true = ground (arith, eq_iff t.name t.name) in
    let there : taken t.name (known ++ t ∷ ts) ≡ true = taken-last t.name known (t ∷ ts) self in
    ap (λ o. go_on o (known ++ t ∷ ts) (λ more. register_all ts more))
      (register-taken t (known ++ t ∷ ts) there)

build_tools-again {ℓ} :
    {A : Type ℓ} (make : String → A) (describe : String → String) (known : List (Tool A))
    → register_all (build_tools make describe) (known ++ build_tools make describe)
      ≡ (known ++ build_tools make describe, false)
unfolding build_tools
build_tools-again make describe known = register_all-again _ _ known

build_tools-distinct {ℓ} :
    {A : Type ℓ} (make : String → A) (describe : String → String)
    → are_distinct (build_tools make describe) ≡ true
unfolding build_tools
build_tools-distinct make describe = refl

-- Where none of the nine names is taken, the default tools are all registered, behind the tools that
-- were there; and registering them once more is refused at the first of them and changes nothing.
pub register_default_tools-once {ℓ} :
    {A : Type ℓ} (make : String → A) (describe : String → String) (known : List (Tool A))
    → are_new known (build_tools make describe) ≡ true
    → let all_tools = known ++ build_tools make describe in
      (register_default_tools make describe known ≡ (all_tools, true))
      × (register_default_tools make describe all_tools ≡ (all_tools, false))
unfolding register_default_tools
register_default_tools-once make describe known n = (
  register_all-new (build_tools make describe) known (build_tools-distinct make describe) n,
  build_tools-again make describe known,
)
