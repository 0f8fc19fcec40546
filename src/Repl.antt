-- ===== src/Repl.antt =====
-- src/repl.rs: how a line that the user types is parsed to a command.
pub mod Hints
use babilonia.Prelude.{
  ℕ, Bool, true, false, ◌==◌, if◌then◌else◌, Option, none, some, List, [], ◌∷◌, ◌++◌, length,
}
use babilonia.Text.{Text, codes, ◌=ᵗ◌, split_whitespace}
use babilonia.Text.Decimal.{to_decimal, parse_uint}
use babilonia.Agent.Events.{Command}

-- `Ok(None)`, `Ok(Some(command))` and `Err(message)`.
pub data Parsed : Type 0 where
  handled : Parsed
  command : Command → Parsed
  refused : Text → Parsed

pub data Verb : Type 0 where
  help connect propose accept reject receive balance send set config recover quit : Verb

abbrev pub verbs : List (Text × Verb)
verbs =
    (codes "help", Verb.help)
    ∷ (codes "?", Verb.help)
    ∷ (codes "connect", Verb.connect)
    ∷ (codes "propose", Verb.propose)
    ∷ (codes "accept", Verb.accept)
    ∷ (codes "reject", Verb.reject)
    ∷ (codes "receive", Verb.receive)
    ∷ (codes "balance", Verb.balance)
    ∷ (codes "send", Verb.send)
    ∷ (codes "set", Verb.set)
    ∷ (codes "config", Verb.config)
    ∷ (codes "recover", Verb.recover)
    ∷ (codes "quit", Verb.quit)
    ∷ (codes "exit", Verb.quit)
    ∷ []

-- `match verb`.
unfoldable pub verb_in : List (Text × Verb) → Text → Option Verb
verb_in [] verb = none
verb_in ((name, v) ∷ vs) verb = let rest = verb_in vs verb in if verb =ᵗ name then some v else rest

-- The message of `need`.
unfoldable pub wrong_count : Text → ℕ → List Text → Parsed
wrong_count verb n rest = refused (
    codes "'"
    ++ verb
    ++ codes "' expects "
    ++ to_decimal n
    ++ codes " argument(s), got "
    ++ to_decimal (length rest))

abbrev with_none : Text → List Text → Command → Parsed
with_none verb [] c = command c
with_none verb (a ∷ rest) c = wrong_count verb 0 (a ∷ rest)

abbrev with_one : Text → List Text → (Text → Parsed) → Parsed
with_one verb [] f = wrong_count verb 1 []
with_one verb (a ∷ []) f = f a
with_one verb (a ∷ b ∷ rest) f = wrong_count verb 1 (a ∷ b ∷ rest)

abbrev with_two : Text → List Text → (Text → Text → Parsed) → Parsed
with_two verb [] f = wrong_count verb 2 []
with_two verb (a ∷ []) f = wrong_count verb 2 (a ∷ [])
with_two verb (a ∷ b ∷ []) f = f a b
with_two verb (a ∷ b ∷ c ∷ rest) f = wrong_count verb 2 (a ∷ b ∷ c ∷ rest)

-- `parse::<u64>()` with its error.
abbrev number : Text → Text → Option ℕ → (ℕ → Command) → Parsed
number what t none f = refused (codes "bad " ++ what ++ codes " '" ++ t ++ codes "'")
number what t (some n) f = command (f n)

abbrev recover_words : List Text → Parsed
recover_words [] = command (Command.recover none false)
recover_words (id ∷ []) = command (Command.recover (some id) false)
recover_words (id ∷ word ∷ []) =
    if word =ᵗ codes "refund"
    then command (Command.recover (some id) true)
    else refused (codes "usage: recover [<id> [refund]]")
recover_words (id ∷ word ∷ more ∷ rest) = refused (codes "usage: recover [<id> [refund]]")

unfoldable pub parse_verb : Option Verb → Text → List Text → Parsed
unfolding wrong_count
parse_verb none verb rest = refused (codes "unknown command '" ++ verb ++ codes "' (try 'help')")
parse_verb (some Verb.help) verb rest = handled
parse_verb (some Verb.connect) verb rest = with_one verb rest (λ a. command (Command.connect a))
parse_verb (some Verb.propose) verb rest = with_none verb rest Command.propose
parse_verb (some Verb.accept) verb rest =
    with_one verb rest (λ a. number (codes "id") a (parse_uint 64 a) Command.accept)
parse_verb (some Verb.reject) verb rest =
    with_one verb rest (λ a. number (codes "id") a (parse_uint 64 a) Command.reject)
parse_verb (some Verb.receive) verb rest = with_none verb rest Command.receive
parse_verb (some Verb.balance) verb rest = with_none verb rest Command.balance
parse_verb (some Verb.send) verb rest =
    with_two verb rest
      (λ a b. number (codes "amount") b (parse_uint 64 b) (λ sats. Command.send a sats))
parse_verb (some Verb.set) verb rest = with_two verb rest (λ a b. command (Command.set a b))
parse_verb (some Verb.config) verb rest = with_none verb rest Command.show_config
parse_verb (some Verb.recover) verb rest = recover_words rest
parse_verb (some Verb.quit) verb rest = command Command.quit

abbrev parse_words : List Text → Parsed
parse_words [] = refused (codes "empty")
parse_words (verb ∷ rest) = parse_verb (verb_in verbs verb) verb rest

unfoldable pub parse : Text → Parsed
unfolding parse_verb verb_in
parse line = parse_words (split_whitespace line)

-- The line that `render_line` shows for a proposed bet, and what it tells the user to type.
unfoldable pub accept_hint : ℕ → Text
accept_hint id = codes "accept" ++ b' ' ∷ to_decimal id

unfoldable pub reject_hint : ℕ → Text
reject_hint id = codes "reject" ++ b' ' ∷ to_decimal id

unfoldable pub render_proposed : ℕ → Text → ℕ → Text
unfolding accept_hint reject_hint
render_proposed id from stake_sats =
    codes "· bet #"
    ++ to_decimal id
    ++ codes " proposed by "
    ++ from
    ++ codes ": "
    ++ to_decimal stake_sats
    ++ codes " sats — '"
    ++ accept_hint id
    ++ codes "' or '"
    ++ reject_hint id
    ++ codes "'\n"
