-- ===== src/Bridge/Content/Unwrapping.antt =====
-- unwrapMessage of internal/bridge/events.go: its bounded loop, and the message that it reaches.
use whatsapp_connect_mcp.Prelude.{subst, ℕ, zero, suc, ◌≤◌, Option, none, some, ◌≡◌, refl, arith}
use whatsapp_connect_mcp.Bridge.Content.{
  Message, message, Envelope, empty, holds, held, first_of, inner, peel, rounds, unwrap_message,
}

-- So many envelopes lie around the content.
pub data Wrapped : ℕ → Message → Message → Type 0 where
  content : {m : Message} → inner m ≡ none → Wrapped 0 m m
  around : {n : ℕ} {m i c : Message} → inner m ≡ some i → Wrapped n i c → Wrapped (suc n) m c

abbrev Reaches : Message → Type 0
Reaches m = (n : ℕ) × (c : Message) × Wrapped n m c

abbrev Reaching : Envelope → Type 0
Reaching e = (i : Message) → held e ≡ some i → Reaches i

reaches :
    (m : Message) (o : Option Message)
    → inner m ≡ o
    → ((i : Message) → o ≡ some i → Reaches i)
    → Reaches m
reaches m none e h = (0, m, content e)
reaches m (some i) e h = let (n, c, w) = h i refl in (suc n, c, around e w)

either :
    (o o' : Option Message)
    → ((i : Message) → o ≡ some i → Reaches i)
    → ((i : Message) → o' ≡ some i → Reaches i)
    → (i : Message) → first_of o o' ≡ some i
    → Reaches i
either none o' h h' i e = h' i e
either (some x) o' h h' i e = h i e

mutual
  unfolding inner

  message-Reaches : (m : Message) → Reaches m
  message-Reaches (message p a b c d e) = reaches (message p a b c d e) _ refl (
      either (held a) _ (envelope-Reaching a) (
        either (held b) _ (envelope-Reaching b) (
          either (held c) _ (envelope-Reaching c)
            (either (held d) (held e) (envelope-Reaching d) (envelope-Reaching e)))))

  envelope-Reaching : (e : Envelope) → Reaching e
  envelope-Reaching empty i h = ground arith
  envelope-Reaching (holds m) i h =
      let same : m ≡ i = ground (arith, h) in subst Reaches same (message-Reaches m)

peel-Wrapped : {n : ℕ} {m c : Message} (r : ℕ) → Wrapped n m c → n ≤ r → peel r m ≡ c
unfolding peel
peel-Wrapped zero (content e) h = refl
peel-Wrapped (suc r) (content e) h = ground (arith, e)
peel-Wrapped zero (around e w) h = absurd (omega arith)
peel-Wrapped (suc r) (around e w) h = ground (arith, e, peel-Wrapped r w (omega arith))

-- Every message is a content in some number of envelopes, and where there are at most four of
-- them, the loop ends with that content.
pub unwrap_reaches :
    (m : Message) → (n : ℕ) × (c : Message) × Wrapped n m c × (n ≤ rounds → unwrap_message m ≡ c)
unfolding unwrap_message
unwrap_reaches m = let (n, c, w) = message-Reaches m in (n, c, w, peel-Wrapped rounds w)
