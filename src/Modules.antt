-- ===== src/Modules.antt =====
-- src/lcapd/modules.c: the processing module that is loaded into the daemon. Nothing calls it.
--
-- Handles and addresses are numbers. `opened` is the handles that dlopen gave and dlclose did not
-- take.
pub mod Symbol
pub mod Life
use lcap.Base.{
  ℕ, Bool, true, false, List, [], ◌∷◌, Option, none, some, ◌==◌, if◌then◌else◌, ℤ, pos, neg, is_int,
  einval, ealready,
}
use lcap.Sys.Run.{Cmd, ok, pure, get, modify, ◌>>=◌, ◌>>◌}

-- What dlopen gives for a file, what dlsym gives for a name in an open file (none is an error of
-- dlerror), and whether strdup finds memory.
pub record Linker : Type 0 where
  pub dlopen : List ℕ → Option ℕ
  pub dlsym : ℕ → List ℕ → Option ℕ
  pub strdup : Bool

-- cpm_ops
pub record ModuleOps : Type 0 where
  pub cpo_name : Option ℕ
  pub cpo_init : Option ℕ
  pub cpo_destroy : Option ℕ
  pub cpo_rec_enqueue : Option ℕ
  pub cpo_rec_dequeue : Option ℕ
  pub cpo_set_ack : Option ℕ
  pub cpo_get_ack : Option ℕ

-- cc_module
pub record LcapProcModule : Type 0 where
  pub cpm_name : Option (List ℕ)
  pub cpm_dlh : Option ℕ
  pub cpm_ops : ModuleOps

-- The part of the context that modules use, with the open handles.
pub record ModuleCtx : Type 0 where
  pub ccf_module : List ℕ
  pub cc_loaded : Bool
  pub cc_module : LcapProcModule
  pub opened : List ℕ

-- memset to 0
abbrev pub no_ops : ModuleOps
no_ops = record {
  cpo_name = none;
  cpo_init = none;
  cpo_destroy = none;
  cpo_rec_enqueue = none;
  cpo_rec_dequeue = none;
  cpo_set_ack = none;
  cpo_get_ack = none;
}

abbrev pub no_module : LcapProcModule
no_module = record { cpm_name = none; cpm_dlh = none; cpm_ops = no_ops }

-- A symbol, and where its address goes.
pub record Wanted : Type 0 where
  pub symname : List ℕ
  pub sym : Option ℕ → ModuleOps → ModuleOps

abbrev pub set_name : Option ℕ → ModuleOps → ModuleOps
set_name a ops = record ops { cpo_name = a }

abbrev pub set_init : Option ℕ → ModuleOps → ModuleOps
set_init a ops = record ops { cpo_init = a }

abbrev pub set_destroy : Option ℕ → ModuleOps → ModuleOps
set_destroy a ops = record ops { cpo_destroy = a }

abbrev pub set_rec_enqueue : Option ℕ → ModuleOps → ModuleOps
set_rec_enqueue a ops = record ops { cpo_rec_enqueue = a }

abbrev pub set_rec_dequeue : Option ℕ → ModuleOps → ModuleOps
set_rec_dequeue a ops = record ops { cpo_rec_dequeue = a }

abbrev pub set_set_ack : Option ℕ → ModuleOps → ModuleOps
set_set_ack a ops = record ops { cpo_set_ack = a }

abbrev pub set_get_ack : Option ℕ → ModuleOps → ModuleOps
set_get_ack a ops = record ops { cpo_get_ack = a }

-- The symbols in the order in which they are looked up.
abbrev pub wanted : List Wanted
wanted =
    record { symname = Symbol.name; sym = set_name }
    ∷ record { symname = Symbol.init; sym = set_init }
    ∷ record { symname = Symbol.destroy; sym = set_destroy }
    ∷ record { symname = Symbol.rec_enqueue; sym = set_rec_enqueue }
    ∷ record { symname = Symbol.rec_dequeue; sym = set_rec_dequeue }
    ∷ record { symname = Symbol.set_ack; sym = set_set_ack }
    ∷ record { symname = Symbol.get_ack; sym = set_get_ack }
    ∷ []

abbrev pub set_ops : (ModuleOps → ModuleOps) → ModuleCtx → ModuleCtx
set_ops f ctx = record ctx {
  cc_module = record ctx.cc_module { cpm_ops = f ctx.cc_module.cpm_ops };
}

abbrev pub found : Option ℕ → ℤ
found none = neg einval
found (some a) = pos 0

-- __mod_symbol
unfoldable pub mod_symbol : Linker → ℕ → Wanted → Cmd ModuleCtx ℤ
mod_symbol dl dlhandle s = do
  modify (set_ops (s.sym (dl.dlsym dlhandle s.symname)))
  pure (found (dl.dlsym dlhandle s.symname))

-- The calls of __mod_symbol in __module_load, up to the first that fails.
unfoldable pub load_symbols : Linker → ℕ → List Wanted → Cmd ModuleCtx ℤ
load_symbols dl dlhandle [] = do modify (λ ctx. record ctx { cc_loaded = true }); pure (pos 0)
load_symbols dl dlhandle (s ∷ ss) = do
  rc ← mod_symbol dl dlhandle s
  if is_int rc (pos 0) then load_symbols dl dlhandle ss else pure rc

-- __module_load
unfoldable pub module_load : Linker → ℕ → List ℕ → Cmd ModuleCtx ℤ
module_load dl dlhandle modname = do
  modify (λ ctx. record ctx {
    cc_module = record ctx.cc_module {
      cpm_name = if dl.strdup then some modname else none;
      cpm_dlh = some dlhandle;
    };
  })
  load_symbols dl dlhandle wanted

abbrev pub without : Option ℕ → List ℕ → List ℕ
without none hs = hs
without (some h) [] = []
without (some h) (g ∷ hs) = if g == h then hs else g ∷ without (some h) hs

abbrev pub dlclose : Option ℕ → ModuleCtx → ModuleCtx
dlclose h ctx = record ctx { opened = without h ctx.opened }

abbrev pub load_opened : Linker → Option ℕ → Cmd ModuleCtx ℤ
load_opened dl none = pure (neg einval)
load_opened dl (some dlhandle) = do
  modify (λ ctx. record ctx { opened = dlhandle ∷ ctx.opened })
  ctx ← get
  rc ← module_load dl dlhandle ctx.ccf_module
  if is_int rc (pos 0)
      then (do modify (λ ctx. record ctx { cc_loaded = true }); pure (pos 0))
      else (do modify (dlclose (some dlhandle)); pure rc)

unfoldable pub lcap_module_load_external : Linker → Cmd ModuleCtx ℤ
lcap_module_load_external dl = do
  ctx ← get
  if ctx.cc_loaded then pure (neg ealready) else load_opened dl (dl.dlopen ctx.ccf_module)

unfoldable pub lcap_module_unload_external : Cmd ModuleCtx ℤ
lcap_module_unload_external = do
  ctx ← get
  if ctx.cc_loaded
      then (do
        modify (dlclose ctx.cc_module.cpm_dlh)
        modify (λ c. record c { cc_module = no_module; cc_loaded = false })
        pure (pos 0))
      else pure (pos 0)
