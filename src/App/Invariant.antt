-- ===== src/App/Invariant.antt =====
-- What holds of the `app` between any two steps.
use espnetwork_serial.Prelude.{
  ℕ, ◌≡◌, refl, sym, Bool, false, not, List, [], ◌∷◌, ◌++◌, Option, none, some, length, Bool-cases,
  inl, inr,
}
use espnetwork_serial.Prelude.Bytes.{Bytes, same}
use espnetwork_serial.App.Defs.{
  Session, App, fresh_session, new_app, has_ended, holds_conns, close_session, clear_active,
  end_now, end_session, BridgeEnd, bridge_end, Event, ends, says, say, happen,
}
use espnetwork_serial.App.Sessions.{
  has_ended-close_same, holds_conns-close_same, has_ended-close_other, holds_conns-close_other,
  has_ended-append_same, holds_conns-append_same, has_ended-append_other, holds_conns-append_other,
  clear_active-other, clear_active-some, ℕ-cases, has_ended-nil, holds_conns-nil,
}

-- A session is live exactly if it is the active one, it has its connections open exactly while it
-- is live, and no connection is open beside.
pub record Holds (xs : List Session) (act : Option ℕ) (loose : ℕ) : Type 0 where
  pub live : (t : ℕ) → has_ended xs t ≡ false → act ≡ some t
  pub at_active : (t : ℕ) → act ≡ some t → has_ended xs t ≡ false
  pub conns : (t : ℕ) → holds_conns xs t ≡ not (has_ended xs t)
  pub none_loose : loose ≡ 0

abbrev pub Inv : App → Type 0
Inv a = Holds a.sessions a.active a.loose

pub close-Holds :
    {xs : List Session} {act : Option ℕ} {n : ℕ} (s : ℕ)
    → Holds xs act n
    → Holds (close_session xs s) (clear_active act s) n
close-Holds {xs} {act} {n} s h = record {
  live = λ t e. elim (ℕ-cases t s) [
    | inl q ↦ cc (has_ended-close_same xs s, q, e)
    | inr ne ↦
        clear_active-other act s t ne (h.live t (rw (sym (has_ended-close_other xs s t ne)) e))
  ];
  at_active = λ t e.
      let (e', ne) = clear_active-some act s t e in
      rw (has_ended-close_other xs s t ne) (h.at_active t e');
  conns = λ t. elim (ℕ-cases t s) [
    | inl q ↦ rw (q, has_ended-close_same xs s) (holds_conns-close_same xs s)
    | inr ne ↦ rw (has_ended-close_other xs s t ne, holds_conns-close_other xs s t ne) (h.conns t)
  ];
  none_loose = h.none_loose;
}

pub append-Holds :
    {xs : List Session} {n : ℕ}
    → Holds xs none n
    → Holds (xs ++ fresh_session ∷ []) (some (length xs)) n
append-Holds {xs} {n} h = record {
  live = λ t e. elim (ℕ-cases t (length xs)) [
    | inl q ↦ cc q
    | inr ne ↦ cc (h.live t (rw (sym (has_ended-append_other xs t ne)) e))
  ];
  at_active = λ t e. let q : t ≡ length xs = cc e in rw q (has_ended-append_same xs);
  conns = λ t. elim (ℕ-cases t (length xs)) [
    | inl q ↦ rw (q, has_ended-append_same xs) (holds_conns-append_same xs)
    | inr ne ↦ rw (has_ended-append_other xs t ne, holds_conns-append_other xs t ne) (h.conns t)
  ];
  none_loose = h.none_loose;
}

end_now-Inv :
    (a : App) (s : ℕ) (event message : Bytes) (is_error : Bool)
    → Inv a
    → Inv (end_now a s event message is_error)
unfolding end_now
end_now-Inv a s event message is_error i = elim (Bool-cases (same event [])) [
  | inl q ↦ rw q (close-Holds s i)
  | inr q ↦ rw q (close-Holds s i)
]

pub end_session-Inv :
    (a : App) (s : ℕ) (event message : Bytes) (is_error : Bool)
    → Inv a
    → Inv (end_session a s event message is_error).0
unfolding end_session
end_session-Inv a s event message is_error i = elim (Bool-cases (has_ended a.sessions s)) [
  | inl q ↦ rw q i
  | inr q ↦ rw q (end_now-Inv a s event message is_error i)
]

bridge_end-Inv : (a : App) (b : BridgeEnd) → Inv a → Inv (bridge_end a b)
unfolding bridge_end
bridge_end-Inv a b i = elim (Bool-cases (has_ended a.sessions b.session)) [
  | inl q ↦ rw q i
  | inr q ↦ rw q (close-Holds b.session i)
]

pub happen-Inv : (a : App) (es : List Event) → Inv a → Inv (happen a es)
unfolding happen
happen-Inv a [] i = i
happen-Inv a (ends b ∷ es) i = happen-Inv (bridge_end a b) es (bridge_end-Inv a b i)
happen-Inv a (says s ∷ es) i = happen-Inv (say a s) es i

pub new_app-Inv : Inv new_app
unfolding new_app
new_app-Inv = record {
  live = λ t e. cc (e, has_ended-nil t);
  at_active = λ t e. cc e;
  conns = λ t. rw (has_ended-nil t) (holds_conns-nil t);
  none_loose = refl;
}
