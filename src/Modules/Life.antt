-- ===== src/Modules/Life.antt =====
-- src/lcapd/modules.c: loading a module, and unloading it.
use lcap.Base.{
  ℕ, ◌≡◌, refl, ap, ◌∙◌, Bool, true, false, List, [], ◌∷◌, Option, none, some, is_some,
  if◌then◌else◌, ◌==◌, ℤ, pos, neg, is_int, einval, ealready, arith, inl, inr, ◌⊎◌, Bool-cases,
}
use lcap.Sys.Run.{Cmd, ok, and_then, pure, modify, ◌>>◌}
use lcap.Sys.Run.Outcome.{Outcome, returns, bind}
use lcap.Modules.{
  Linker, ModuleOps, ModuleCtx, no_module, Wanted, wanted, set_ops, found, mod_symbol, load_symbols,
  module_load, without, dlclose, lcap_module_load_external, lcap_module_unload_external,
}
use lcap.Modules.Symbol

-- All symbols are found, and the first of those that is not.
abbrev pub all_found : Linker → ℕ → List Wanted → Bool
all_found dl h [] = true
all_found dl h (s ∷ ss) = if is_some (dl.dlsym h s.symname) then all_found dl h ss else false

-- The operations as the module has them.
abbrev pub ops_of : Linker → ℕ → ModuleOps
ops_of dl h = record {
  cpo_name = dl.dlsym h Symbol.name;
  cpo_init = dl.dlsym h Symbol.init;
  cpo_destroy = dl.dlsym h Symbol.destroy;
  cpo_rec_enqueue = dl.dlsym h Symbol.rec_enqueue;
  cpo_rec_dequeue = dl.dlsym h Symbol.rec_dequeue;
  cpo_set_ack = dl.dlsym h Symbol.set_ack;
  cpo_get_ack = dl.dlsym h Symbol.get_ack;
}

-- What loading leaves of the context.
abbrev load_all : Linker → ℕ → List Wanted → ModuleOps → ModuleOps
load_all dl h [] ops = ops
load_all dl h (s ∷ ss) ops = load_all dl h ss (s.sym (dl.dlsym h s.symname) ops)

found_lem : (o : Option ℕ) → is_int (found o) (pos 0) ≡ is_some o
found_lem none = refl
found_lem (some a) = ground arith

not_found : (o : Option ℕ) → is_some o ≡ false → found o ≡ neg einval
not_found none h = refl
not_found (some a) h = cc

symbols_found :
    (dl : Linker) (h : ℕ) (ss : List Wanted) (ctx : ModuleCtx)
    → all_found dl h ss ≡ true
    → load_symbols dl h ss ctx
      ≡ ok (pos 0) (record (set_ops (load_all dl h ss) ctx) { cc_loaded = true })
unfolding load_symbols mod_symbol
symbols_found dl h [] ctx all = refl
symbols_found dl h (s ∷ ss) ctx all =
    let here : is_some (dl.dlsym h s.symname) ≡ true = ground arith in
    let rest : all_found dl h ss ≡ true = ground arith in
    rw (found_lem (dl.dlsym h s.symname), here)
      (symbols_found dl h ss (set_ops (s.sym (dl.dlsym h s.symname)) ctx) rest)

symbols_missing :
    (dl : Linker) (h : ℕ) (ss : List Wanted) (ctx : ModuleCtx)
    → all_found dl h ss ≡ false
    → Outcome ⊥
        (λ rc c. (rc ≡ neg einval) × (c.opened ≡ ctx.opened) × (c.cc_loaded ≡ ctx.cc_loaded))
        (load_symbols dl h ss ctx)
unfolding load_symbols mod_symbol
symbols_missing dl h [] ctx all = cc
symbols_missing dl h (s ∷ ss) ctx all = elim (Bool-cases (is_some (dl.dlsym h s.symname))) [
  | inl here ↦
      let rest : all_found dl h ss ≡ false = ground arith in
      rw (found_lem (dl.dlsym h s.symname), here)
        (symbols_missing dl h ss (set_ops (s.sym (dl.dlsym h s.symname)) ctx) rest)
  | inr gone ↦
      rw (found_lem (dl.dlsym h s.symname), gone)
        (returns (not_found (dl.dlsym h s.symname) gone, refl, refl))
]

without_head : (h : ℕ) (hs : List ℕ) → without (some h) (h ∷ hs) ≡ hs
without_head h hs = let same : (h == h) ≡ true = ground arith in rw same refl

-- The context behind a module that was loaded.
abbrev pub loaded_module : Linker → ℕ → ModuleCtx → ModuleCtx
loaded_module dl h ctx = record ctx {
  cc_loaded = true;
  cc_module = record {
    cpm_name = if dl.strdup then some ctx.ccf_module else none;
    cpm_dlh = some h;
    cpm_ops = ops_of dl h;
  };
  opened = h ∷ ctx.opened;
}

-- The context in front of the search for symbols, and what follows it.
abbrev named : Linker → ℕ → ModuleCtx → ModuleCtx
named dl h ctx = record ctx {
  cc_loaded = false;
  cc_module = record ctx.cc_module {
    cpm_name = if dl.strdup then some ctx.ccf_module else none;
    cpm_dlh = some h;
  };
  opened = h ∷ ctx.opened;
}

abbrev closing : ℕ → ℤ → Cmd ModuleCtx ℤ
closing h rc =
    if is_int rc (pos 0)
    then (do modify (λ ctx. record ctx { cc_loaded = true }); pure (pos 0))
    else (do modify (dlclose (some h)); pure rc)

-- Where no module is loaded and dlopen gives a handle, lcap_module_load_external either finds all
-- seven symbols, or it returns -EINVAL. In the first case it returns 0 with every operation at its
-- symbol's address and the handle open, a second load is refused with -EALREADY, and an unload
-- returns 0 and leaves no module and the handles of before. In the second case no module is loaded,
-- and the handle is closed.
pub load_and_unload :
    (dl : Linker) (h : ℕ) (ctx : ModuleCtx)
    → ctx.cc_loaded ≡ false
    → dl.dlopen ctx.ccf_module ≡ some h
    → ((all_found dl h wanted ≡ true)
        × (lcap_module_load_external dl ctx ≡ ok (pos 0) (loaded_module dl h ctx))
        × (lcap_module_load_external dl (loaded_module dl h ctx)
            ≡ ok (neg ealready) (loaded_module dl h ctx))
        × (lcap_module_unload_external (loaded_module dl h ctx)
            ≡ ok (pos 0) (record ctx { cc_loaded = false; cc_module = no_module })))
      ⊎ ((all_found dl h wanted ≡ false)
          × Outcome ⊥
              (λ rc c. (rc ≡ neg einval) × (c.cc_loaded ≡ false) × (c.opened ≡ ctx.opened))
              (lcap_module_load_external dl ctx))
unfolding lcap_module_load_external lcap_module_unload_external module_load
load_and_unload dl h ctx idle opens = elim (Bool-cases (all_found dl h wanted)) [
  | inl all ↦
      let same : (h == h) ≡ true = ground arith in
      inl (
        all,
        rw (idle, opens)
            (ap (λ r. and_then r (closing h)) (symbols_found dl h wanted (named dl h ctx) all)),
        refl,
        rw same refl,
      )
  | inr some_ ↦ inr (
    some_,
    rw (idle, opens)
        (bind (symbols_missing dl h wanted (named dl h ctx) some_) (λ rc c res.
          rw res.0
            (returns (refl, res.2, ap (without (some h)) res.1 ∙ without_head h ctx.opened)))),
  )
]
