-- ===== src/Rdt/Link/Transfers.antt =====
-- A whole text over such a network, from the first packet on.
use mathlib.Core.Path.{subst}
use mathlib.Core.Option.{some-injective}
use distributed_graph_databa.Prelude.{
  ℕ, ◌≡◌, refl, sym, ap, ◌∙◌, inl, inr, [], ◌∷◌, ◌++◌, List, Bytes, append_assoc, All, Bool, true,
  false, not, ltb, some, arith,
}
use distributed_graph_databa.Network.{Sockaddr}
use distributed_graph_databa.Wire.Hosts.{Lacks}
use distributed_graph_databa.Rdt.Helper.{Packet, make_packets}
use distributed_graph_databa.Rdt.Helper.Split.{
  IsSound, Parts, Alternate, contents, bodies, make_packets_lem,
}
use distributed_graph_databa.Rdt.Packet.{newline}
use distributed_graph_databa.Rdt.Transfer.Rounds.{IsClean}
use distributed_graph_databa.Rdt.Transfer.Delivery.{IsClean-contents}
use distributed_graph_databa.Rdt.Link.{Link, new_link, first_sent, Steps, here, next}
use distributed_graph_databa.Rdt.Link.Promise.{
  Prepared, Stream, Advance, stays, delivers, Represents, contents-append,
}
use distributed_graph_databa.Rdt.Link.Refines.{Step-refines}
use distributed_graph_databa.Rdt.Link.Recovers.{completes}

full-more : (n : ℕ) → n ≡ 20 → not (ltb n 10) ≡ true
full-more n e = ground arith

Prepared-packets :
    (bit : Bool) (packets : List Packet)
    → All (IsSound 20) packets
    → All IsClean packets
    → Alternate bit packets
    → Parts 20 (bodies packets)
    → Prepared bit packets
Prepared-packets bit [] h clean alt parts = tt
Prepared-packets bit (p ∷ []) h clean alt parts =
    (record { sound = h.0; clean = clean.0; number = alt.0; goes_on_or_last = inr refl }, tt)
Prepared-packets bit (p ∷ q ∷ packets) h clean alt parts = (
  record {
    sound = h.0;
    clean = clean.0;
    number = alt.0;
    goes_on_or_last = inl (full-more p.len (h.0.length_sent ∙ parts.0));
  },
  Prepared-packets (not bit) (q ∷ packets) h.1 clean.1 alt.1 parts.1,
)

abbrev Whole : List Packet → Stream → Type 0
Whole packets s = packets ≡ s.delivered ++ s.waiting

Advance-Whole :
    (packets : List Packet) (s s' : Stream) → Advance s s' → Whole packets s → Whole packets s'
Advance-Whole packets s s' (stays e) h = subst (Whole packets) (sym e) h
Advance-Whole packets s s' (delivers p rest u e) h =
    subst (Whole packets) (sym e)
      (h ∙ ap (λ w. s.delivered ++ w) u ∙ sym (append_assoc s.delivered (p ∷ []) rest))

pub first_represents :
    (packets : List Packet)
    → Prepared false packets
    → Represents (new_link packets) (record { delivered = []; waiting = packets })
unfolding new_link first_sent
first_represents [] h = inl (record {
  same_packets = refl;
  same_bits = refl;
  in_forward = tt;
  in_back = tt;
  collects = refl;
  prepared = h;
})
first_represents (p ∷ packets) h = inl (record {
  same_packets = refl;
  same_bits = refl;
  in_forward = inr (refl, tt);
  in_back = tt;
  collects = refl;
  prepared = h;
})

-- The packets of a text: prepared, and together the text.
pub packets_of :
    (text : Bytes) (packets : List Packet)
    → Lacks newline text
    → Lacks 0 text
    → make_packets 20 text ≡ some packets
    → Prepared false packets × (contents packets ≡ text)
packets_of text packets clean whole made =
    let (packets', e, same_text, sound, alternate, parts) =
      make_packets_lem 20 text (omega arith) (omega arith) in
    let clean_packets =
      IsClean-contents packets' (subst (Lacks newline) (sym same_text) clean)
        (subst (Lacks 0) (sym same_text) whole) in
    subst (λ (ps : List Packet). Prepared false ps × (contents ps ≡ text))
      (some-injective packets' packets (sym e ∙ made))
      (Prepared-packets false packets' sound clean_packets alternate parts, same_text)

module _ (sender peer : Sockaddr) where
  Steps-refine :
      (packets : List Packet) (first l : Link)
      → (s : Stream) × Represents first s × Whole packets s
      → Steps sender peer first l
      → (s : Stream) × Represents l s × Whole packets s
  Steps-refine packets first l h here = h
  Steps-refine packets first l h (next {m = m} steps step) =
      let (s, represents, whole) = Steps-refine packets first m h steps in
      let (s', advance, represents') = Step-refines sender peer m l s represents step in
      (s', represents', Advance-Whole packets s s' advance whole)

  reached :
      (packets : List Packet) (l : Link)
      → Prepared false packets
      → Steps sender peer (new_link packets) l
      → (s : Stream) × Represents l s × Whole packets s
  reached packets l h steps =
      Steps-refine packets (new_link packets) l
        (record { delivered = []; waiting = packets }, first_represents packets h, refl) steps

  collected_of :
      (l : Link) (s : Stream) → Represents l s → l.receiver.collected ≡ contents s.delivered
  collected_of l s (inl h) = h.collects
  collected_of l s (inr h) = h.collects

  -- A text with no newline and no 0 is on its way in packets of 20 bytes, over a network that keeps
  -- their order. Whatever the network loses or brings more than once, and however often either side
  -- times out: the receiver has collected some of the packets from the first on, in order and each
  -- once, and no more.
  pub Steps-collects :
      (text : Bytes) (packets : List Packet) (l : Link)
      → Lacks newline text
      → Lacks 0 text
      → make_packets 20 text ≡ some packets
      → Steps sender peer (new_link packets) l
      → (delivered waiting : List Packet) × (packets ≡ delivered ++ waiting)
        × (l.receiver.collected ≡ contents delivered)
        × (l.receiver.collected ++ contents waiting ≡ text)
  Steps-collects text packets l clean whole made steps =
      let (prepared, same_text) = packets_of text packets clean whole made in
      let (s, represents, e) = reached packets l prepared steps in
      let collected = collected_of l s represents in
      (
        s.delivered,
        s.waiting,
        e,
        collected,
        ap (λ c. c ++ contents s.waiting) collected
            ∙ sym (contents-append s.delivered s.waiting)
            ∙ ap contents (sym e)
            ∙ same_text,
      )

  -- A text with no newline and no 0 is on its way in packets of 20 bytes, over a network that keeps
  -- their order, and after any steps of the two sides and the network the receiver's loop still goes
  -- on. Then there are further steps after which the receiver has collected the text, whole and once.
  pub Steps-complete :
      (text : Bytes) (packets : List Packet) (l : Link)
      → Lacks newline text
      → Lacks 0 text
      → make_packets 20 text ≡ some packets
      → Steps sender peer (new_link packets) l
      → l.listening ≡ true
      → (m : Link) × Steps sender peer l m × (m.receiver.collected ≡ text)
  Steps-complete text packets l clean whole made steps listens =
      let (prepared, same_text) = packets_of text packets clean whole made in
      let (s, represents, e) = reached packets l prepared steps in
      let (m, later, collected) =
        completes sender peer l s.delivered s.waiting represents listens in
      (m, later, collected ∙ ap contents (sym e) ∙ same_text)
