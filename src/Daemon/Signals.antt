-- ===== src/Daemon/Signals.antt =====
-- src/lcapd/lcapd.c: the signals of the daemon.
--
-- Signals come in while the thread that looks at the flags sleeps.
use lcap.Base.{
  ◌≡◌, refl, ap, ◌∙◌, Bool, true, false, ◌||◌, ◌&&◌, not, arith, List, [], ◌∷◌, ◌++◌, if◌then◌else◌,
}

-- TerminateSig, ReloadSig and DumpStatsSig
pub record Flags : Type 0 where
  pub terminate_sig : Bool
  pub reload_sig : Bool
  pub dump_stats_sig : Bool

pub data Signal : Type 0 where
  sigterm : Signal
  sigint : Signal
  sighup : Signal
  sigusr1 : Signal

unfoldable pub lcap_sigterm : Flags → Flags
lcap_sigterm f = record f { terminate_sig = true }

unfoldable pub lcap_sigreload : Flags → Flags
lcap_sigreload f = record f { reload_sig = true }

unfoldable pub lcap_sigdumpstats : Flags → Flags
lcap_sigdumpstats f = record f { dump_stats_sig = true }

-- The array `handlers`
abbrev pub handler : Signal → Flags → Flags
handler sigterm = lcap_sigterm
handler sigint = lcap_sigterm
handler sighup = lcap_sigreload
handler sigusr1 = lcap_sigdumpstats

abbrev pub reset : Flags
reset = record { terminate_sig = false; reload_sig = false; dump_stats_sig = false }

abbrev pub arrive : List Signal → Flags → Flags
arrive [] f = f
arrive (s ∷ ss) f = arrive ss (handler s f)

pub data Action : Type 0 where
  -- lcap_readers_terminate and exit(1)
  quit : Action
  reload : Action
  dump_stats : Action
  idle : Action

-- One round of the loop
abbrev pub check_flags : Flags → Action × Flags
check_flags f =
    if f.terminate_sig
    then (quit, f)
    else if f.reload_sig
    then (reload, record f { reload_sig = false })
    else if f.dump_stats_sig
    then (dump_stats, record f { dump_stats_sig = false })
    else (idle, f)

abbrev pub is_quit : Action → Bool
is_quit quit = true
is_quit a = false

-- The loop of setup_sighandlers, with the signals that come in before each round, up to exit.
unfoldable pub signal_loop : List (List Signal) → Flags → List Action
signal_loop [] f = []
signal_loop (ss ∷ rounds) f =
    let r = check_flags (arrive ss f) in r.0 ∷ (if is_quit r.0 then [] else signal_loop rounds r.1)

unfoldable pub setup_sighandlers : List (List Signal) → List Action
setup_sighandlers rounds = signal_loop rounds reset

abbrev pub is_term : Signal → Bool
is_term sigterm = true
is_term sigint = true
is_term s = false

abbrev pub has_term : List Signal → Bool
has_term [] = false
has_term (s ∷ ss) = is_term s || has_term ss

abbrev pub none_terms : List (List Signal) → Bool
none_terms [] = true
none_terms (ss ∷ rounds) = not (has_term ss) && none_terms rounds

arrive_lem :
    (ss : List Signal) (f : Flags) → (arrive ss f).terminate_sig ≡ f.terminate_sig || has_term ss
unfolding lcap_sigterm lcap_sigreload lcap_sigdumpstats
arrive_lem [] f = ground arith
arrive_lem (sigterm ∷ ss) f = ground (arith, arrive_lem ss (lcap_sigterm f))
arrive_lem (sigint ∷ ss) f = ground (arith, arrive_lem ss (lcap_sigterm f))
arrive_lem (sighup ∷ ss) f = arrive_lem ss (lcap_sigreload f)
arrive_lem (sigusr1 ∷ ss) f = arrive_lem ss (lcap_sigdumpstats f)

going_on :
    (f : Flags)
    → f.terminate_sig ≡ false
    → (is_quit (check_flags f).0 ≡ false) × ((check_flags f).1.terminate_sig ≡ false)
going_on f h = by_flags f.terminate_sig f.reload_sig f.dump_stats_sig h
  where
    by_flags :
        (t r d : Bool)
        → t ≡ false
        → let g : Flags = record { terminate_sig = t; reload_sig = r; dump_stats_sig = d } in
          (is_quit (check_flags g).0 ≡ false) × ((check_flags g).1.terminate_sig ≡ false)
    by_flags true r d h = cc
    by_flags false true d h = (refl, refl)
    by_flags false false true h = (refl, refl)
    by_flags false false false h = (refl, refl)

-- SIGTERM or SIGINT ends the loop in the round behind it, whatever other signals are pending, and
-- until then the loop does what it does without it and does not end.
pub termination_ends_loop :
    (before : List (List Signal)) (ss : List Signal) (after : List (List Signal))
    → none_terms before ≡ true
    → has_term ss ≡ true
    → setup_sighandlers (before ++ ss ∷ after) ≡ setup_sighandlers before ++ quit ∷ []
unfolding setup_sighandlers signal_loop
termination_ends_loop before ss after clean term = from before reset clean refl
  where
    from :
        (before : List (List Signal)) (f : Flags)
        → none_terms before ≡ true
        → f.terminate_sig ≡ false
        → signal_loop (before ++ ss ∷ after) f ≡ signal_loop before f ++ quit ∷ []
    from [] f c h =
        let on : (arrive ss f).terminate_sig ≡ true = arrive_lem ss f ∙ ground arith in rw on refl
    from (b ∷ bs) f c h =
        let off : (arrive b f).terminate_sig ≡ false = arrive_lem b f ∙ ground arith in
        let (goes, still) = going_on (arrive b f) off in
        let rest : none_terms bs ≡ true = ground arith in
        rw goes (
          ap (λ done. (check_flags (arrive b f)).0 ∷ done)
            (from bs (check_flags (arrive b f)).1 rest still))
