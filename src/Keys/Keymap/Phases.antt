-- ===== src/Keys/Keymap/Phases.antt =====
-- A plain key never fires in the capture phase, nor a modified one in the bubble phase.
use hwatu.Common.{ℕ, ◌≡◌, refl, true, false, ◌||◌, none, [], ◌∷◌, arith, if◌then◌else◌}
use hwatu.Keys.Chords.{Gdk, Chord, Modifiers, Phase, capture, bubble, phase, phase_eq, matches}
use hwatu.Keys.Keymap.{Bindings, lookup}

-- The phase that a key event belongs to.
abbrev pub event_phase : Modifiers → Phase
event_phase state = if state.control_mask || state.alt_mask then capture else bubble

pub matches-phase :
    (G : Gdk) (c : Chord) (key : ℕ) (state : Modifiers)
    → matches G c key state ≡ true
    → phase c ≡ event_phase state
unfolding matches
matches-phase G c key state h = ground arith

-- An event fires only in its own phase: in the capture phase, which runs before the page, nothing is
-- bound to a key without ctrl or alt, and in the bubble phase nothing to a key with one of them.
pub lookup_phase :
    (G : Gdk) (bs : Bindings) (p : Phase) (key : ℕ) (state : Modifiers)
    → phase_eq (event_phase state) p ≡ false
    → lookup G bs p key state ≡ none
unfolding lookup
lookup_phase G [] p key state h = refl
lookup_phase G ((c, a) ∷ bs) p key state h =
    ground (arith, matches-phase G c key state, lookup_phase G bs p key state)
