-- ===== src/Options/Tests.antt =====
-- The negotiator about option 1, at new negotiators.
use telnetty.Base.{◌≡◌, refl, true, false, [], ◌∷◌, arith, ◌≡◌, refl, true, false, [], ◌∷◌, arith}
use telnetty.Cmd
use telnetty.Options.Sides.{us, him}
use telnetty.Options.Handle.{handle-table}
use telnetty.Options.Handshake.{exchange, exchange-ends}
use telnetty.Options.React.{on, deliver}
use telnetty.Options.Agreement.{ask, ask-settles, ask-crosses}
use telnetty.Options.{
  disabled, enabled, want_no, Negotiator, new_negotiator, new_option, get, handle,
}

-- Our side of option 1 is on, and its peer's side is being turned off.
abbrev busy : Negotiator
busy = new_option ∷ record { us = enabled; him = want_no } ∷ []

exchange-ends_example : (exchange 4 1 busy new_negotiator (Cmd.will)).0 ≡ 0
exchange-ends_example = exchange-ends 1 us busy new_negotiator on (omega arith) (omega arith)

ask-settles_example :
    let (command, a1) = ask us true new_negotiator 1 in
    let (rest, a', b') = exchange 3 1 a1 new_negotiator command in
    (rest ≡ 0) × ((get a' 1).us ≡ enabled) × ((get b' 1).him ≡ enabled)
ask-settles_example =
    ask-settles 1 us true false new_negotiator new_negotiator (omega arith) (omega arith) refl refl

ask-crosses_example :
    let (from_a, a1) = ask us true new_negotiator 1 in
    let (from_b, b1) = ask him true new_negotiator 1 in
    let (response_a, a') = deliver a1 from_b 1 in
    let (response_b, b') = deliver b1 from_a 1 in
    (response_a ≡ 0) × (response_b ≡ 0) × ((get a' 1).us ≡ enabled) × ((get b' 1).him ≡ enabled)
ask-crosses_example =
    ask-crosses 1 us true false new_negotiator new_negotiator (omega arith) (omega arith) refl refl

handle-table_example :
    let (response, changed, n') = handle busy Cmd.will 1 in
    let (response', changed', n'') = handle busy Cmd.wont 1 in
    ((get n' 1).him ≡ disabled)
    × (response ≡ Cmd.dont)
    × ((get n'' 1).him ≡ disabled)
    × (response' ≡ 0)
handle-table_example = handle-table busy 1 (omega arith) him tt
