-- ===== src/Schema/Cache.antt =====
-- Which validator `compileSchema` gives after earlier calls.
use postbag.Common.{
  ◌≡◌, refl, ap, sym, ◌∙◌, Bool, true, false, Option, none, some, List, [], ◌∷◌, ◌++◌, inl, inr,
  Text, teq, teq-cases, subst, if◌then◌else◌,
}
use postbag.Errors.{Result, err, ok, validation_failed}
use postbag.Json.Values.{Fields, obj}
use postbag.Schema.Compile.{
  stable_hash, has_remote_reference, Compiled, cached, keep_compiled, cached_or_compile,
  compile_schema,
}

module _ {V : Type 0} (ajv_compile : Fields → Result V) where
  -- The schemas that are kept after calls for a list of schemas, the first call first.
  unfoldable pub after_calls : List Fields → Compiled V → Compiled V
  after_calls [] schemas = schemas
  after_calls (s ∷ calls) schemas = after_calls calls (compile_schema ajv_compile s schemas).0

  abbrev pub or_next : Result V → Option V → Option V
  or_next (ok v) next = some v
  or_next (err e) next = next

  -- The validator of the first schema among the calls that has a hash and compiles.
  unfoldable pub first_with : Text → List Fields → Option V
  first_with hash [] = none
  first_with hash (s ∷ calls) =
      if has_remote_reference (obj s)
      then first_with hash calls
      else if teq (stable_hash (obj s)) hash
      then or_next (ajv_compile s) (first_with hash calls)
      else first_with hash calls

  or_option : Option V → Option V → Option V
  or_option none b = b
  or_option (some v) b = some v

  cached-append :
      (hash k : Text) (v : V) (schemas : Compiled V)
      → cached hash (schemas ++ ((k, v) ∷ []))
        ≡ or_option (cached hash schemas) (if teq k hash then some v else none)
  unfolding or_option
  cached-append hash k v [] = refl
  cached-append hash k v ((j, w) ∷ schemas) = pick (teq j hash) _ _ (cached-append hash k v schemas)
    where
      pick :
          (b : Bool) (x y : Option V)
          → x ≡ or_option y (if teq k hash then some v else none)
          → (if b then some w else x)
            ≡ or_option (if b then some w else y) (if teq k hash then some v else none)
      pick true x y h = refl
      pick false x y h = h

  or_option-none : (a : Option V) → a ≡ or_option a none
  unfolding or_option
  or_option-none none = refl
  or_option-none (some v) = refl

  or_option_assoc :
      (a : Option V) (b : Bool) (v : V) (next : Option V)
      → or_option (or_option a (if b then some v else none)) next
        ≡ or_option a (if b then some v else next)
  unfolding or_option
  or_option_assoc none true v next = refl
  or_option_assoc none false v next = refl
  or_option_assoc (some w) b v next = refl

  -- One call behind the guard, as it shows under any hash.
  cached_or_compile_lem :
      (hash key : Text) (compiled : Result V) (schemas : Compiled V) (next found : Option V)
      → cached key schemas ≡ found
      → or_option (cached hash (cached_or_compile key schemas found compiled).0) next
        ≡ or_option (cached hash schemas) (if teq key hash then or_next compiled next else next)
  unfolding or_option
  cached_or_compile_lem hash key compiled schemas next (some v) e = elim (teq-cases key hash) [
    | inl (p, q) ↦
        let c : cached hash schemas ≡ some v = subst (λ z. cached z schemas ≡ some v) p e in
        ap (λ z. or_option z next) c
        ∙ sym (ap (λ z. or_option z (if teq key hash then or_next compiled next else next)) c)
    | inr q ↦ rw q refl
  ]
  cached_or_compile_lem hash key (ok v) schemas next none e =
      ap (λ z. or_option z next) (cached-append hash key v schemas)
      ∙ or_option_assoc (cached hash schemas) (teq key hash) v next
  cached_or_compile_lem hash key (err x) schemas next none e = either (teq key hash)
    where
      either :
          (b : Bool)
          → or_option (cached hash schemas) next
            ≡ or_option (cached hash schemas) (if b then next else next)
      either true = refl
      either false = refl

  cached-compile_schema :
      (hash : Text) (s : Fields) (calls : List Fields) (schemas : Compiled V)
      → or_option (cached hash (compile_schema ajv_compile s schemas).0) (first_with hash calls)
        ≡ or_option (cached hash schemas) (first_with hash (s ∷ calls))
  unfolding compile_schema first_with
  cached-compile_schema hash s calls schemas =
      guarded (has_remote_reference (obj s)) _ _
        (cached_or_compile_lem hash (stable_hash (obj s)) (ajv_compile s) schemas _ _ refl)
    where
      guarded :
          (b : Bool) (x : Compiled V × Result V) (o : Option V)
          → or_option (cached hash x.0) (first_with hash calls) ≡ or_option (cached hash schemas) o
          → or_option
              (cached hash (if b then (schemas, err validation_failed) else x).0)
              (first_with hash calls)
            ≡ or_option (cached hash schemas) (if b then first_with hash calls else o)
      guarded true x o h = refl
      guarded false x o h = h

  cached-after_calls :
      (hash : Text) (calls : List Fields) (schemas : Compiled V)
      → cached hash (after_calls calls schemas)
        ≡ or_option (cached hash schemas) (first_with hash calls)
  unfolding after_calls first_with or_option
  cached-after_calls hash [] schemas = or_option-none (cached hash schemas)
  cached-after_calls hash (s ∷ calls) schemas =
      cached-after_calls hash calls (compile_schema ajv_compile s schemas).0
      ∙ cached-compile_schema hash s calls schemas

  abbrev pub found_or_compiled : Fields → Option V → Result V
  found_or_compiled s (some v) = ok v
  found_or_compiled s none = ajv_compile s

  cached_or_compile-answer :
      (key : Text) (s : Fields) (schemas : Compiled V) (found : Option V)
      → (cached_or_compile key schemas found (ajv_compile s)).1 ≡ found_or_compiled s found
  cached_or_compile-answer key s schemas (some v) = refl
  cached_or_compile-answer key s schemas none = kept (ajv_compile s)
    where
      kept : (r : Result V) → (keep_compiled key schemas r).1 ≡ r
      kept (ok v) = refl
      kept (err e) = refl

  -- After any earlier calls a schema without remote references gets the validator of the first of
  -- them whose schema has no remote reference, compiles and has the same 32-bit hash, whichever schema
  -- that is; where there is none it is compiled itself. A schema with a remote reference is refused.
  pub compile_schema-first_with :
      (calls : List Fields) (s : Fields)
      → (compile_schema ajv_compile s (after_calls calls [])).1 ≡ (
          if has_remote_reference (obj s)
          then err validation_failed
          else found_or_compiled s (first_with (stable_hash (obj s)) calls))
  unfolding compile_schema or_option
  compile_schema-first_with calls s =
      let key = stable_hash (obj s) in
      let schemas = after_calls calls [] in
      guarded (has_remote_reference (obj s)) _ _ (
        cached_or_compile-answer key s schemas (cached key schemas)
        ∙ ap (found_or_compiled s) (cached-after_calls key calls []))
    where
      guarded :
          (b : Bool) (x : Compiled V × Result V) (r : Result V)
          → x.1 ≡ r
          → (if b then (after_calls calls [], err validation_failed) else x).1
            ≡ (if b then err validation_failed else r)
      guarded true x r h = refl
      guarded false x r h = h
