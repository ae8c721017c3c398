-- ===== src/Logging.antt =====
-- src/services/logging and src/common/decorators/logging.decorator.ts. What is logged is a list of
-- the calls that come to ConsoleLogger or to the console, which are not part of the repository.
pub mod Transparency
use nestjs_framework_templat.Prelude.{
  ℕ, String, Bool, Option, none, some, List, [], ◌∷◌, ◌++◌, units, if◌then◌else◌,
}
use nestjs_framework_templat.Effect.{Result, ok, err}

pub data LogType : Type 0 where
  debug : LogType
  log : LogType
  error : LogType
  warn : LogType

-- A message: a text, as the list of its units, or a value that JSON prints.
pub data Content (V : Type 0) : Type 0 where
  text : List ℕ → Content V
  value : V → Content V

-- A call of the method `level`, with its message and the parameters behind it.
pub record Call (V : Type 0) : Type 0 where
  pub level : LogType
  pub message : Content V
  pub params : List (Option String)

-- What LoggingService reads: the setting `system.debug`, and ClsService.
pub record Cls : Type 0 where
  pub is_active : Bool
  pub type : Option (List ℕ)
  pub id : List ℕ

module _ {V : Type 0} (json : V → List ℕ) where
  abbrev pub shown : Content V → List ℕ
  shown (text t) = t
  shown (value v) = json v

  -- `this.clsService.get('type') || 'Default'`
  abbrev pub type_name : Option (List ℕ) → List ℕ
  type_name none = units "Default"
  type_name (some []) = units "Default"
  type_name (some (c ∷ cs)) = c ∷ cs

  -- LoggingService.generateMessage
  unfoldable pub generate_message : Cls → Content V → Content V
  generate_message cls message =
      if cls.is_active
      then text
          (units "[" ++ type_name cls.type ++ units "-" ++ cls.id ++ units "] " ++ shown message)
      else message

  -- LoggingService.debug, log, error and warn
  unfoldable pub logging_service : Bool → Cls → LogType → Content V → Option String → List (Call V)
  logging_service system_debug cls debug message context =
      if system_debug
      then record { level = debug; message = generate_message cls message; params = context ∷ [] }
        ∷ []
      else []
  logging_service system_debug cls log message context =
      record { level = log; message = generate_message cls message; params = context ∷ [] } ∷ []
  logging_service system_debug cls error message stack_or_context =
      record {
        level = error;
        message = generate_message cls message;
        params = stack_or_context ∷ some "ExceptionsHandler" ∷ [];
      }
      ∷ []
  logging_service system_debug cls warn message context =
      record { level = warn; message = generate_message cls message; params = context ∷ [] } ∷ []

-- `messageBefore` and `messageAfter`: a text, or one made of the arguments.
pub data Message (X : Type 0) : Type 0 where
  fixed : List ℕ → Message X
  made : (X → List ℕ) → Message X

abbrev pub parse_message : {X : Type 0} → Message X → X → List ℕ
parse_message (fixed t) args = t
parse_message (made f) args = f args

pub record LoggingOptions (X : Type 0) : Type 0 where
  pub message_before : Message X
  pub log_type_before : Option LogType
  pub message_after : Option (Message X)
  pub log_type_after : Option LogType

-- `!message.messageAfter` is true of an empty text, too.
abbrev pub message_to_log : {X : Type 0} → Option (Message X) → Option (Message X)
message_to_log none = none
message_to_log (some (fixed [])) = none
message_to_log (some (fixed (c ∷ cs))) = some (fixed (c ∷ cs))
message_to_log (some (made f)) = some (made f)

abbrev pub or_debug : Option LogType → LogType
or_debug none = debug
or_debug (some t) = t

-- What a logger writes for a text and the name of a class.
abbrev pub Logger : Type 0 → Type 0
Logger L = LogType → List ℕ → String → List L

-- The state of the program, what was logged, and the variable `logger` of the decorator's module.
pub record Logged (L S : Type 0) : Type 0 where
  pub state : S
  pub lines : List L
  pub logger : Option (Logger L)

-- A call returns or throws at once, or its promise settles.
pub data Completion (S A : Type 0) : Type 0 where
  sync : Result S A → Completion S A
  promise : Result S A → Completion S A

-- `console`, and what the application context hands out as its Logger, if there is one
module _ {L : Type 0} (console : Logger L) (application_context : Option (Logger L)) where
  -- `getLogger`, and the variable as it leaves it
  unfoldable pub get_logger : Option (Logger L) → Logger L × Option (Logger L)
  get_logger cached = elim application_context [
    | none ↦ (console, cached)
    | some given ↦ elim cached [ none ↦ (given, some given) | some l ↦ (l, some l) ]
  ]

  abbrev pub write : {S : Type 0} → LogType → List ℕ → String → Logged L S → Logged L S
  write level message name s = record s {
    lines = s.lines ++ (get_logger s.logger).0 level message name;
    logger = (get_logger s.logger).1;
  }

  -- The message behind a call that went well
  unfoldable pub log_after :
      {X S A : Type 0}
      → LoggingOptions X
      → String
      → X
      → Result (Logged L S) A
      → Result (Logged L S) A
  log_after o name args (err e s) = err e s
  log_after o name args (ok a s) = elim (message_to_log o.message_after) [
    | none ↦ ok a s
    | some m ↦ ok a (write (or_debug o.log_type_after) (parse_message m args) name s)
  ]

  unfoldable pub complete :
      {X S A : Type 0}
      → LoggingOptions X
      → String
      → X
      → Completion (Logged L S) A
      → Completion (Logged L S) A
  complete o name args (sync r) = sync (log_after o name args r)
  complete o name args (promise r) = promise (log_after o name args r)

  -- The method that LoggingDecorator puts in place of `method`
  unfoldable pub logging_decorator :
      {X S A : Type 0}
      → LoggingOptions X
      → String
      → (X → Logged L S → Completion (Logged L S) A)
      → X
      → Logged L S
      → Completion (Logged L S) A
  logging_decorator o name method args s = complete o name args (
      method args (write (or_debug o.log_type_before) (parse_message o.message_before args) name s))
