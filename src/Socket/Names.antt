-- ===== src/Socket/Names.antt =====
-- The names of the rooms of src/shared/constants/websocket.constants.ts: a prefix and an id, so that
-- a room tells both.
use Prim.Native.Char.{code}
use Prim.Native.String.{◌++◌ as str_append}
use Prim.Native.String.append
use text.Mathlib.TextLemmas.{append_cancel_left}
use spotq_queue_service.Base.{
  ℕ, zero, suc, String, ◌≡◌, refl, sym, ap, ◌∙◌, Bool, true, false, ◌==◌, if◌then◌else◌,
}

-- The code point at a place of a text, or zero after its end.
code_at : ℕ → String → ℕ
code_at n String.[] = 0
code_at zero (String.◌∷◌ c s) = code c
code_at (suc n) (String.◌∷◌ c s) = code_at n s

abbrev reaches : ℕ → String → Bool
reaches n String.[] = false
reaches zero (String.◌∷◌ c s) = true
reaches (suc n) (String.◌∷◌ c s) = reaches n s

code_at-append :
    (n : ℕ) (p s : String) → reaches n p ≡ true → code_at n (str_append p s) ≡ code_at n p
unfolding code_at
code_at-append n String.[] s h = cc
code_at-append zero (String.◌∷◌ c p) s h = rw (append.cons c p s) refl
code_at-append (suc n) (String.◌∷◌ c p) s h = rw (append.cons c p s) (code_at-append n p s h)

-- The kinds of rooms, but the queue rooms of a restaurant, which are among its rooms.
pub data RoomKind : Type 0 where
  restaurants queues tickets queue_entries users : RoomKind

abbrev prefix : RoomKind → String
prefix restaurants = "restaurant:"
prefix queues = "queue:"
prefix tickets = "ticket:"
prefix queue_entries = "queue-entry:"
prefix users = "user:"

abbrev pub room : RoomKind → String → String
room k id = str_append (prefix k) id

kind_of : ℕ → ℕ → RoomKind
kind_of first sixth =
    if first == b'r'
    then restaurants
    else if first == b't'
    then tickets
    else if first == b'u'
    then users
    else if sixth == b':'
    then queues
    else queue_entries

kind_of-room :
    (k : RoomKind) (id : String) → kind_of (code_at 0 (room k id)) (code_at 5 (room k id)) ≡ k
unfolding kind_of code_at
kind_of-room restaurants id = rw (code_at-append 0 "restaurant:" id refl) refl
kind_of-room queues id =
    rw (code_at-append 0 "queue:" id refl, code_at-append 5 "queue:" id refl) refl
kind_of-room tickets id = rw (code_at-append 0 "ticket:" id refl) refl
kind_of-room queue_entries id =
    rw (code_at-append 0 "queue-entry:" id refl, code_at-append 5 "queue-entry:" id refl) refl
kind_of-room users id = rw (code_at-append 0 "user:" id refl) refl

-- A room's name tells its kind and its id.
pub room-injective : (k l : RoomKind) (a b : String) → room k a ≡ room l b → (k ≡ l) × (a ≡ b)
room-injective k l a b e =
    let same =
      sym (kind_of-room k a) ∙ ap (λ s. kind_of (code_at 0 s) (code_at 5 s)) e ∙ kind_of-room l b in
    (same, append_cancel_left (prefix l) a b (ap (λ j. room j a) (sym same) ∙ e))
