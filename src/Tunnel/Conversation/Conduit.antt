-- ===== src/Tunnel/Conversation/Conduit.antt =====
-- What the tunnel of src/native/src/socks5.cc and tunnel.cc is to those who talk through it, as a machine of
-- its own: two queues, one in each direction.
use snakesocks.Base.{◌≡◌, ap, sym, ◌∙◌, List, [], ◌∷◌, ◌++◌, append_assoc, append-nil}
use snakesocks.Io.{Bytes}
use snakesocks.Tunnel.Conversation.{
  Event, quiet, from_local, from_hop, told_local, told_hop, all_told,
}

-- What is on its way, and what has come out at the next hop and at the local program.
pub record Conduit : Type 0 where
  pub up : List Bytes
  pub down : List Bytes
  pub at_hop : Bytes
  pub at_local : Bytes

pub data Conveys (a : Conduit) : Event → Conduit → Type 0 where
  takes_up : (bytes : Bytes) → Conveys a (from_local bytes) (record a { up = a.up ++ (bytes ∷ []) })
  takes_down :
      (bytes : Bytes) → Conveys a (from_hop bytes) (record a { down = a.down ++ (bytes ∷ []) })
  gives_up :
      (bytes : Bytes) (later : List Bytes)
      → a.up ≡ bytes ∷ later
      → Conveys a quiet (record a { up = later; at_hop = a.at_hop ++ bytes })
  gives_down :
      (bytes : Bytes) (later : List Bytes)
      → a.down ≡ bytes ∷ later
      → Conveys a quiet (record a { down = later; at_local = a.at_local ++ bytes })
  idles : Conveys a quiet a

pub data ConveysAll : Conduit → List Event → Conduit → Type 0 where
  ends : (a : Conduit) → ConveysAll a [] a
  begins :
      {a b c : Conduit} {e : Event} {es : List Event}
      → Conveys a e b
      → ConveysAll b es c
      → ConveysAll a (e ∷ es) c

abbrev pub concat : List Bytes → Bytes
concat [] = []
concat (x ∷ xs) = x ++ concat xs

concat-append : (xs : List Bytes) (y : Bytes) → concat (xs ++ (y ∷ [])) ≡ concat xs ++ y
concat-append [] y = append-nil y
concat-append (x ∷ xs) y = simp (concat-append xs y, append_assoc)

-- All that has come out and all that will.
abbrev pub for_hop : Conduit → Bytes
for_hop a = a.at_hop ++ concat a.up

abbrev pub for_local : Conduit → Bytes
for_local a = a.at_local ++ concat a.down

Conveys-for :
    {a b : Conduit} {e : Event}
    → Conveys a e b
    → (for_hop b ≡ for_hop a ++ told_local e) × (for_local b ≡ for_local a ++ told_hop e)
Conveys-for {a} (takes_up bytes) =
    (simp (concat-append, append_assoc), sym (append-nil (for_local a)))
Conveys-for {a} (takes_down bytes) =
    (sym (append-nil (for_hop a)), simp (concat-append, append_assoc))
Conveys-for {a} (gives_up bytes later e) =
    (simp (e, append_assoc, append-nil), sym (append-nil (for_local a)))
Conveys-for {a} (gives_down bytes later e) =
    (sym (append-nil (for_hop a)), simp (e, append_assoc, append-nil))
Conveys-for {a} idles = (sym (append-nil (for_hop a)), sym (append-nil (for_local a)))

-- Nothing is lost, added or put out of order.
pub ConveysAll-for :
    {a b : Conduit} {es : List Event}
    → ConveysAll a es b
    → (for_hop b ≡ for_hop a ++ all_told told_local es)
      × (for_local b ≡ for_local a ++ all_told told_hop es)
ConveysAll-for (ends a) = (sym (append-nil (for_hop a)), sym (append-nil (for_local a)))
ConveysAll-for (begins move moves) =
    let (h, l) = Conveys-for move in
    let (h', l') = ConveysAll-for moves in
    (h' ∙ simp (h, append_assoc), l' ∙ simp (l, append_assoc))

pub ConveysAll-append :
    {a b c : Conduit} {es fs : List Event}
    → ConveysAll a es b
    → ConveysAll b fs c
    → ConveysAll a (es ++ fs) c
ConveysAll-append (ends a) later = later
ConveysAll-append (begins move moves) later = begins move (ConveysAll-append moves later)

-- What has come out when nothing is left on its way.
pub emptied :
    {a b c : Conduit} {es fs : List Event}
    → ConveysAll a es b
    → ConveysAll b fs c
    → all_told told_local fs ≡ []
    → all_told told_hop fs ≡ []
    → a.up ≡ []
    → a.down ≡ []
    → c.up ≡ []
    → c.down ≡ []
    → (c.at_hop ≡ a.at_hop ++ all_told told_local es)
      × (c.at_local ≡ a.at_local ++ all_told told_hop es)
emptied {a} {b} {c} {es} moves later still still' none_up none_down done done' =
    let (h, l) = ConveysAll-for moves in
    let (h', l') = ConveysAll-for later in
    let end_hop : for_hop c ≡ c.at_hop = rw done (append-nil c.at_hop) in
    let end_local : for_local c ≡ c.at_local = rw done' (append-nil c.at_local) in
    let start_hop : for_hop a ≡ a.at_hop = rw none_up (append-nil a.at_hop) in
    let start_local : for_local a ≡ a.at_local = rw none_down (append-nil a.at_local) in
    (
      sym end_hop
          ∙ h'
          ∙ rw (still, append-nil (for_hop b)) h
          ∙ ap (λ x. x ++ all_told told_local es) start_hop,
      sym end_local
          ∙ l'
          ∙ rw (still', append-nil (for_local b)) l
          ∙ ap (λ x. x ++ all_told told_hop es) start_local,
    )
