-- ===== src/Html/Dom/Events.antt =====
-- The event listeners of html/src/dom/dom.c.
use prismatic_os.Base.{
  ℕ, ◌≡◌, refl, sym, ◌≢◌, inl, inr, false, ◌&&◌, ◌||◌, List, [], ◌∷◌, ◌++◌, append-nil, arith, ◌==◌,
  if◌then◌else◌, eq_refl, eq_false_of_ne, Bool-cases,
}
use prismatic_os.Base.Linked.{null}
use prismatic_os.Html.Dom.{
  Ptr, EventType, click, mousedown, mouseup, mousemove, keydown, keyup, focus, blur, load, resize,
  change, submit, Listener, Nodes, update,
}

pub dom_add_event_listener : Nodes → Ptr → EventType → Ptr → Ptr → Nodes
dom_add_event_listener nodes p type handler user_data =
    let listener : Listener = record {
      type = type;
      handler = handler;
      user_data = user_data;
      capture = false;
      passive = false;
      once = false;
    } in
    if (p == null) || (handler == null)
    then nodes
    else update nodes p
        (record (nodes p) { event_listeners = (nodes p).event_listeners ++ (listener ∷ []) })

-- The number of the event type.
unfoldable pub event_number : EventType → ℕ
event_number click = 0
event_number mousedown = 1
event_number mouseup = 2
event_number mousemove = 3
event_number keydown = 4
event_number keyup = 5
event_number focus = 6
event_number blur = 7
event_number load = 8
event_number resize = 9
event_number change = 10
event_number submit = 11

-- A handler and its user_data.
abbrev pub Call : Type 0
Call = Ptr × Ptr

-- The handlers that are called with their user_data, in order, where none of them changes the event.
unfoldable pub calls : List Listener → EventType → List Call
calls [] type = []
calls (l ∷ ls) type =
    let more = calls ls type in
    if event_number l.type == event_number type then (l.handler, l.user_data) ∷ more else more

-- `event` is the address of the event.
pub dom_dispatch_event : Nodes → Ptr → Ptr → EventType → List Call
dom_dispatch_event nodes target event type =
    if (target == null) || (event == null) then [] else calls (nodes target).event_listeners type

calls-append :
    (ls : List Listener) (l : Listener) (type : EventType)
    → calls (ls ++ (l ∷ [])) type ≡ calls ls type ++ calls (l ∷ []) type
unfolding calls
calls-append [] l type = refl
calls-append (x ∷ ls) l type = elim (Bool-cases (event_number x.type == event_number type)) [
  | inl e ↦ rw (e, calls-append ls l type) refl
  | inr e ↦ rw (e, calls-append ls l type) refl
]

-- A listener that is added is called when an event of its type is dispatched to the node, behind the
-- listeners that were there; events of another type, or at another node, call the same handlers as
-- before.
pub dom_dispatch_event-dom_add_event_listener :
    (nodes : Nodes) (p target event : Ptr) (type other : EventType) (handler user_data : Ptr)
    → p ≢ null
    → event ≢ null
    → handler ≢ null
    → dom_dispatch_event (dom_add_event_listener nodes p type handler user_data) target event other
      ≡ dom_dispatch_event nodes target event other
        ++ (if (target == p) && (event_number type == event_number other)
            then (handler, user_data) ∷ []
            else [])
unfolding dom_dispatch_event dom_add_event_listener update calls
dom_dispatch_event-dom_add_event_listener nodes p target event type other handler user_data nep nee
      neh =
    elim (Bool-cases (target == p)) [
      | inl here ↦
          let e : target ≡ p = ground arith in
          rw
            (
              e,
              eq_false_of_ne p null nep,
              eq_false_of_ne event null nee,
              eq_false_of_ne handler null neh,
              eq_refl p,
            )
            (calls-append (nodes p).event_listeners _ other)
      | inr there ↦
          rw (eq_false_of_ne p null nep, eq_false_of_ne handler null neh, there)
            (sym (append-nil _))
    ]
