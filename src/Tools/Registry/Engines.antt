-- ===== src/Tools/Registry/Engines.antt =====
-- About the engines of a connection registry (src/dag_doctor/tools/connections.py).
use dag_doctor.Base.{
  String, str_eq, eq_iff, Text, Option, none, some, is_some, List, [], ◌∷◌, ◌++◌, ◌≡◌, refl, sym,
  ap, subst, arith, Bool-cases, inl, inr,
}
use dag_doctor.Tools.Registry.{Named, lookup, Connections, Answer, with_engine, with_dsn, engine}

abbrev or_held : {E : Type 0} → E → Option E → E
or_held d none = d
or_held d (some e) = e

module _ {E : Type 0} (create : Text → E) where
  -- An engine that was created from the DSN that is registered under a name.
  abbrev pub IsFrom : List (Named Text) → String → E → Type 0
  IsFrom dsns name held =
      (entry : Named Text) × (lookup name dsns ≡ some entry) × (held ≡ create entry.held)

  abbrev AllFrom : List (Named Text) → List (Named E) → Type 0
  AllFrom dsns [] = Unit {0}
  AllFrom dsns (e ∷ es) = IsFrom dsns e.name e.held × AllFrom dsns es

  -- Every engine that is open is of a registered DSN.
  abbrev pub IsSound : Connections E → Type 0
  IsSound c = AllFrom c.dsns c.engines

  AllFrom-append :
      (dsns : List (Named Text)) (es : List (Named E)) (e : Named E)
      → AllFrom dsns es
      → IsFrom dsns e.name e.held
      → AllFrom dsns (es ++ e ∷ [])
  AllFrom-append dsns [] e h k = (k, tt)
  AllFrom-append dsns (x ∷ xs) e h k = (h.0, AllFrom-append dsns xs e h.1 k)

  lookup-IsFrom :
      (dsns : List (Named Text)) (es : List (Named E)) (name : String) (e : Named E)
      → AllFrom dsns es
      → lookup name es ≡ some e
      → IsFrom dsns name e.held
  unfolding lookup
  lookup-IsFrom dsns [] name e h k = absurd (ground arith)
  lookup-IsFrom dsns (x ∷ xs) name e h k = elim (Bool-cases (str_eq x.name name)) [
    | inl q ↦
        let same : x.name ≡ name = ground (arith, eq_iff x.name name) in
        let it : x ≡ e = ground arith in
        subst (λ y. IsFrom dsns name y.held) it (subst (λ n. IsFrom dsns n x.held) same h.0)
    | inr q ↦
        let rest : lookup name xs ≡ some e = ground arith in lookup-IsFrom dsns xs name e h.1 rest
  ]

  -- What an answer gives, and what it leaves of the connections.
  pub record IsServed (name : String) (c : Connections E) (a : Answer E) : Type 0 where
    pub registered_only : is_some a.given ≡ is_some (lookup name c.dsns)
    pub own_engine : (held : E) → a.given ≡ some held → IsFrom c.dsns name held
    pub dsns_kept : a.connections.dsns ≡ c.dsns
    pub sound : IsSound a.connections

  with_engine-IsServed :
      (name : String) (c : Connections E) (entry : Named Text) (open_one : Option (Named E))
      → IsSound c
      → lookup name c.dsns ≡ some entry
      → lookup name c.engines ≡ open_one
      → IsServed name c (with_engine create name entry.held c open_one)
  unfolding with_engine
  with_engine-IsServed name c entry none h d e = record {
    registered_only = rw d refl;
    own_engine = λ held k. (entry, d, sym (ap (λ o. or_held (create entry.held) o) k));
    dsns_kept = refl;
    sound = AllFrom-append c.dsns c.engines _ h (entry, d, refl);
  }
  with_engine-IsServed name c entry (some x) h d e = record {
    registered_only = rw d refl;
    own_engine = λ held k.
        subst (λ y. IsFrom c.dsns name y) (ap (λ o. or_held x.held o) k)
          (lookup-IsFrom c.dsns c.engines name x h e);
    dsns_kept = refl;
    sound = h;
  }

  with_dsn-IsServed :
      (name : String) (c : Connections E) (entry : Option (Named Text))
      → IsSound c
      → lookup name c.dsns ≡ entry
      → IsServed name c (with_dsn create name c entry)
  unfolding with_dsn
  with_dsn-IsServed name c none h d = record {
    registered_only = rw d refl;
    own_engine = λ held k. absurd (ground arith);
    dsns_kept = refl;
    sound = h;
  }
  with_dsn-IsServed name c (some entry) h d =
      with_engine-IsServed name c entry (lookup name c.engines) h d refl

-- Where every engine that is open was created from the DSN registered under its name, a name gives an
-- engine exactly if it is registered, the engine is one created from the DSN of that very name, the
-- registered DSNs stay as they are, and so does what is said of the open engines.
pub engine-IsServed :
    {E : Type 0} (create : Text → E) (name : String) (c : Connections E)
    → IsSound create c
    → IsServed create name c (engine create name c)
unfolding engine
engine-IsServed create name c h = with_dsn-IsServed create name c (lookup name c.dsns) h refl
