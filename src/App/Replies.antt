-- ===== src/App/Replies.antt =====
-- Responses to commands, and responses that say that a session has ended.
use espnetwork_serial.Prelude.{
  ℕ, ◌≡◌, refl, sym, List, [], ◌∷◌, ◌++◌, Bool-cases, inl, inr, ◌==◌, append_assoc, append-nil,
}
use espnetwork_serial.Prelude.Bytes.{Bytes, codes}
use espnetwork_serial.App.Defs.{
  Response, App, has_ended, BridgeEnd, bridge_end, Event, ends, says, say, said, happen, fail,
}

-- Responses that say that a session has ended by itself.
pub data Ends : List Response → Type 0 where
  no_end : Ends []
  one_end :
      {r : Response} {rs : List Response}
      → r.event_type ≡ codes "port_closed"
      → Ends rs
      → Ends (r ∷ rs)

-- `b` has written, after `a`, ends of sessions only.
pub record Quiet (a b : App) : Type 0 where
  pub ends : List Response
  pub are_ends : Ends ends
  pub writes : b.out ≡ a.out ++ ends

-- `b` has written, after `a`, one response of the event type, and ends of sessions before it.
pub record Answers (event : Bytes) (a b : App) : Type 0 where
  pub ends : List Response
  pub are_ends : Ends ends
  pub reply : Response
  pub is_reply_to : reply.event_type ≡ event
  pub writes : b.out ≡ a.out ++ (ends ++ reply ∷ [])

pub Quiet-refl : (a : App) → Quiet a a
Quiet-refl a = record { ends = []; are_ends = no_end; writes = sym (append-nil a.out) }

pub Quiet-loose : (a b : App) (n : ℕ) → Quiet a b → Quiet a (record b { loose = n })
Quiet-loose a b n h = record { ends = h.ends; are_ends = h.are_ends; writes = h.writes }

Ends-append : {xs ys : List Response} → Ends xs → Ends ys → Ends (xs ++ ys)
Ends-append no_end e' = e'
Ends-append (one_end q e) e' = one_end q (Ends-append e e')

pub Quiet-trans : (a b c : App) → Quiet a b → Quiet b c → Quiet a c
Quiet-trans a b c p q = record {
  ends = p.ends ++ q.ends;
  are_ends = Ends-append p.are_ends q.are_ends;
  writes = rw (q.writes, p.writes) (append_assoc a.out p.ends q.ends);
}

pub Quiet-Answers :
    {event : Bytes} (a b c : App) → Quiet a b → Answers event b c → Answers event a c
Quiet-Answers a b c p q = record {
  ends = p.ends ++ q.ends;
  are_ends = Ends-append p.are_ends q.are_ends;
  reply = q.reply;
  is_reply_to = q.is_reply_to;
  writes = rw (q.writes, p.writes) (simp append_assoc);
}

pub answers : (a b : App) (r : Response) → b.out ≡ a.out ++ r ∷ [] → Answers r.event_type a b
answers a b r e = record { ends = []; are_ends = no_end; reply = r; is_reply_to = refl; writes = e }

fail-Answers : (a : App) (event message : Bytes) → Answers event a (fail a event message)
fail-Answers a event message = answers a _ _ refl

said-Ends : (owed : List (ℕ × Bytes)) (s : ℕ) → Ends (said owed s)
unfolding said
said-Ends [] s = no_end
said-Ends ((t, message) ∷ owed) s = elim (Bool-cases (t == s)) [
  | inl q ↦ rw (said, q) (one_end refl (said-Ends owed s))
  | inr q ↦ rw (said, q) (said-Ends owed s)
]

pub say-Quiet : (a : App) (s : ℕ) → Quiet a (say a s)
say-Quiet a s = record { ends = said a.owed s; are_ends = said-Ends a.owed s; writes = refl }

bridge_end-Quiet : (a : App) (b : BridgeEnd) → Quiet a (bridge_end a b)
unfolding bridge_end
bridge_end-Quiet a b = elim (Bool-cases (has_ended a.sessions b.session)) [
  | inl q ↦ rw (bridge_end, q) (Quiet-refl a)
  | inr q ↦
      rw (bridge_end, q) (record { ends = []; are_ends = no_end; writes = sym (append-nil a.out) })
]

pub happen-Quiet : (a : App) (es : List Event) → Quiet a (happen a es)
unfolding happen
happen-Quiet a [] = Quiet-refl a
happen-Quiet a (ends b ∷ es) =
    Quiet-trans a (bridge_end a b) _ (bridge_end-Quiet a b) (happen-Quiet (bridge_end a b) es)
happen-Quiet a (says s ∷ es) = Quiet-trans a (say a s) _ (say-Quiet a s) (happen-Quiet (say a s) es)
