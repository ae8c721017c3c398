-- ===== src/Logging/Transparency.antt =====
-- A method under LoggingDecorator: its outcome, and what is logged.
use mathlib.Core.List.{append-nil, append_assoc}
use nestjs_framework_templat.Prelude.{
  String, Option, none, some, List, [], ◌++◌, ◌≡◌, refl, ap, sym, ◌∙◌, arith, inl, inr,
  Option-cases,
}
use nestjs_framework_templat.Effect.{Result, ok, err}
use nestjs_framework_templat.Logging.{
  LoggingOptions, parse_message, message_to_log, or_debug, Logger, Logged, Completion, sync,
  promise, get_logger, write, log_after, complete, logging_decorator,
}

abbrev relabel : {L S A : Type 0} → List L → Option (Logger L) → Result S A → Result (Logged L S) A
relabel lines logger (ok a s) = ok a (record { state = s; lines = lines; logger = logger })
relabel lines logger (err e s) = err e (record { state = s; lines = lines; logger = logger })

-- The same outcome and state, with these lines and this variable.
abbrev pub with_lines :
    {L S A : Type 0} → List L → Option (Logger L) → Completion S A → Completion (Logged L S) A
with_lines lines logger (sync r) = sync (relabel lines logger r)
with_lines lines logger (promise r) = promise (relabel lines logger r)

module _ {L X : Type 0} (o : LoggingOptions X) (name : String) where
  abbrev pub before : Logger L → X → List L
  before logger args =
      logger (or_debug o.log_type_before) (parse_message o.message_before args) name

  abbrev pub after : {S A : Type 0} → Logger L → X → Result S A → List L
  after logger args (err e s) = []
  after logger args (ok a s) = elim (message_to_log o.message_after) [
    | none ↦ []
    | some m ↦ logger (or_debug o.log_type_after) (parse_message m args) name
  ]

  abbrev pub after_call : {S A : Type 0} → Logger L → X → Completion S A → List L
  after_call logger args (sync r) = after logger args r
  after_call logger args (promise r) = after logger args r

module _ {L : Type 0} (console : Logger L) (application_context : Option (Logger L)) where
  abbrev pub chosen : Option (Logger L) → Logger L
  chosen cached = (get_logger console application_context cached).0

  -- `method` comes to what `plain` comes to and leaves its state; it logs the lines of `out`
  -- besides, and does not change which logger is used.
  abbrev pub Logs :
      {X S A : Type 0}
      → (X → S → Completion S A)
      → (Logger L → X → S → List L)
      → (X → Logged L S → Completion (Logged L S) A)
      → Type 0
  Logs {X} {S} plain out method =
      (args : X) (s : Logged L S)
      → (logger : Option (Logger L)) × (chosen logger ≡ chosen s.logger)
        × (method args s
            ≡ with_lines (s.lines ++ out (chosen s.logger) args s.state) logger
                (plain args s.state))

-- To look for the logger does not change which one is found.
get_logger-chosen :
    {L : Type 0} (console : Logger L) (application_context logger : Option (Logger L))
    → chosen console application_context (get_logger console application_context logger).1
      ≡ chosen console application_context logger
unfolding get_logger
get_logger-chosen console none logger = refl
get_logger-chosen console (some given) none = refl
get_logger-chosen console (some given) (some l) = refl

-- The lines of a call and of its parts, which all use one logger.
four_parts :
    {L : Type 0} (xs ys : List L) (f g : Logger L → List L) {p q r : Logger L}
    → p ≡ r
    → q ≡ r
    → ((xs ++ ys) ++ f p) ++ g q ≡ xs ++ (ys ++ (f r ++ g r))
four_parts xs ys f g {p} {q} {r} h k =
    ap (λ l. ((xs ++ ys) ++ f l) ++ g q) h
    ∙ ap (λ l. ((xs ++ ys) ++ f r) ++ g l) k
    ∙ append_assoc (xs ++ ys) (f r) (g r)
    ∙ append_assoc xs ys (f r ++ g r)

module _ {L X S A : Type 0} (console : Logger L) (application_context : Option (Logger L))
    (o : LoggingOptions X) (name : String) where
  log_after-lines :
      (args : X) (lines : List L) (logger : Option (Logger L)) (r : Result S A)
      → (l : Option (Logger L)) × (chosen console application_context l
          ≡ chosen console application_context logger)
        × (log_after console application_context o name args (relabel lines logger r)
            ≡ relabel
                (lines ++ after o name (chosen console application_context logger) args r)
                l
                r)
  unfolding log_after
  log_after-lines args lines logger (err e s) = (
    logger,
    refl,
    ap (λ l. err e (record { state = s; lines = l; logger = logger })) (sym (append-nil lines)),
  )
  log_after-lines args lines logger (ok a s) =
      elim (Option-cases (message_to_log o.message_after)) [
        | inl e ↦ (logger, refl, ground (arith, e, append-nil lines))
        | inr (m, e) ↦ (
          (get_logger console application_context logger).1,
          get_logger-chosen console application_context logger,
          ground (arith, e),
        )
      ]

  complete-lines :
      (args : X) (lines : List L) (logger : Option (Logger L)) (c : Completion S A)
      → (l : Option (Logger L)) × (chosen console application_context l
          ≡ chosen console application_context logger)
        × (complete console application_context o name args (with_lines lines logger c)
            ≡ with_lines
                (lines ++ after_call o name (chosen console application_context logger) args c)
                l
                c)
  unfolding complete
  complete-lines args lines logger (sync r) =
      let (l, e, q) = log_after-lines args lines logger r in (l, e, ap sync q)
  complete-lines args lines logger (promise r) =
      let (l, e, q) = log_after-lines args lines logger r in (l, e, ap promise q)

  -- A method under the decorator is settled as it is without it: the same value or exception, at
  -- once or by a promise, from the same state. What is logged is the first message, what the
  -- method itself logs, and then, only if it went well and there is a message for it that is not
  -- empty, the last message; so decorated methods can be decorated or call each other.
  pub logging_decorator-Logs :
      (plain : X → S → Completion S A) (out : Logger L → X → S → List L)
      (method : X → Logged L S → Completion (Logged L S) A)
      → Logs console application_context plain out method
      → Logs console application_context plain
          (λ logger args s.
            before o name logger args
            ++ (out logger args s ++ after_call o name logger args (plain args s)))
          (logging_decorator console application_context o name method)
  unfolding logging_decorator complete
  logging_decorator-Logs plain out method h args s =
      let logger = chosen console application_context s.logger in
      let found = get_logger-chosen console application_context s.logger in
      let (l, same, e) = h args (
        write console application_context (or_debug o.log_type_before)
          (parse_message o.message_before args) name s) in
      let (k, kept, q) = complete-lines args _ l (plain args s.state) in
      (
        k,
        kept ∙ same ∙ found,
        ap (complete console application_context o name args) e
            ∙ q
            ∙ ap (λ lines. with_lines lines k (plain args s.state))
                (four_parts s.lines (before o name logger args) (λ l. out l args s.state)
                  (λ l. after_call o name l args (plain args s.state)) found (same ∙ found)),
      )
