-- ===== src/Server/Delivery.antt =====
-- Where the messages are before and after a call.
use chers.Base.{
  ℕ, suc, ◌+◌, ◌≡◌, refl, ap, ◌∙◌, Bool, true, false, List, [], ◌∷◌, ◌++◌, branch, arith,
}
use chers.Base.Predicates.{count, count-append}
use chers.Server.{
  Message, CallResult, answered, refused, transport_lost, timed_out, Server, answers, Ended, ended,
  await, request, call,
}

module _ {P : Type 0} where
  -- The messages of all rounds.
  abbrev pub arrivals : List (List (Message P)) → List (Message P)
  arrivals [] = []
  arrivals (new ∷ rounds) = new ++ arrivals rounds

  -- The message that a result is made of.
  abbrev pub taken : CallResult P → List (Message P)
  taken (answered m) = m ∷ []
  taken (refused m) = m ∷ []
  taken (transport_lost m) = m ∷ []
  taken timed_out = []

  -- A result is that of the request with a number.
  abbrev pub Answers : ℕ → CallResult P → Type 0
  Answers number (answered m) = (answers number m ≡ true) × (m.has_error ≡ false)
  Answers number (refused m) = (answers number m ≡ true) × (m.has_error ≡ true)
  Answers number (transport_lost m) = m.transport_ended ≡ true
  Answers number timed_out = Unit

  -- So many messages that pass a test are in the queue, deferred, or still to come.
  abbrev total :
      (Message P → Bool) → List (Message P) → List (Message P) → List (List (Message P)) → ℕ
  total p queue deferred rounds = count p queue + count p deferred + count p (arrivals rounds)

  abbrev Delivers : ℕ → (Message P → Bool) → ℕ → Ended P → Type 0
  Delivers number p n e =
      (n ≡ count p e.messages + count p (arrivals e.rounds) + count p (taken e.result))
      × Answers number e.result

  -- A loop that looks at the front of a queue.
  pub by_front :
      (Q : Ended P → Type 0) (queue : List (Message P)) (none_left : Ended P)
      (front : Message P → List (Message P) → Ended P)
      → (queue ≡ [] → Q none_left)
      → ((m : Message P) (rest : List (Message P)) → queue ≡ m ∷ rest → Q (front m rest))
      → Q (elim queue as (λ _. Ended P) [ [] ↦ none_left | m ∷ rest ↦ front m rest ])
  by_front Q [] none_left front f g = f refl
  by_front Q (m ∷ rest) none_left front f g = g m rest refl

  -- The counts, when the front of a queue is taken or deferred.
  front_total :
      (p : Message P → Bool) (queue new deferred rest : List (Message P)) (m : Message P)
      (rounds : List (List (Message P)))
      → queue ++ new ≡ m ∷ rest
      → total p queue deferred (new ∷ rounds) ≡ total p rest (deferred ++ m ∷ []) rounds
  front_total p queue new deferred rest m rounds e = omega (
    arith,
    count-append p queue new,
    count-append p new (arrivals rounds),
    count-append p deferred (m ∷ []),
    count-append p (m ∷ []) rest,
    ap (count p) e,
  )

  empty_total :
      (p : Message P → Bool) (queue new deferred : List (Message P))
      (rounds : List (List (Message P)))
      → queue ++ new ≡ []
      → total p queue deferred (new ∷ rounds) ≡ total p [] deferred rounds
  empty_total p queue new deferred rounds e =
      omega (arith, count-append p queue new, count-append p new (arrivals rounds), ap (count p) e)

  Delivers-shift :
      (number : ℕ) (p : Message P → Bool) (m n : ℕ) (e : Ended P)
      → m ≡ n
      → Delivers number p n e
      → Delivers number p m e
  Delivers-shift number p m n e q d = (q ∙ d.0, d.1)

  -- The loop ends with the front of the queue.
  front-Delivers :
      (number : ℕ) (p : Message P → Bool) (n : ℕ) (m : Message P) (rest deferred : List (Message P))
      (rounds : List (List (Message P)))
      → n ≡ total p rest (deferred ++ m ∷ []) rounds
      → (result : CallResult P) → taken result ≡ m ∷ []
      → Answers number result
      → Delivers number p n (ended result rest deferred rounds)
  front-Delivers number p n m rest deferred rounds same result t a = (
    omega (
      arith,
      same,
      count-append p deferred (m ∷ []),
      count-append p rest deferred,
      ap (count p) t,
    ),
    a,
  )

  await-Delivers :
      (number : ℕ) (p : Message P → Bool) (rounds : List (List (Message P)))
      (queue deferred : List (Message P))
      → Delivers number p (total p queue deferred rounds) (await number rounds queue deferred)
  unfolding await
  await-Delivers number p [] queue deferred = (omega (arith, count-append p queue deferred), tt)
  await-Delivers number p (new ∷ rounds) queue deferred =
      by_front (Delivers number p all) (queue ++ new) _ _
        (λ e.
          Delivers-shift number p all (total p [] deferred rounds) (await number rounds [] deferred)
            (empty_total p queue new deferred rounds e)
            (await-Delivers number p rounds [] deferred))
        (λ m rest e.
          let same = front_total p queue new deferred rest m rounds e in
          let stop = front-Delivers number p all m rest deferred rounds same in
          branch (Delivers number p all) m.transport_ended _ _
            (λ lost. stop (transport_lost m) refl lost)
            (λ _.
              branch (Delivers number p all) (answers number m) _ _
                (λ own.
                  branch (Delivers number p all) m.has_error _ _
                    (λ bad. stop (refused m) refl (own, bad))
                    (λ good. stop (answered m) refl (own, good)))
                (λ _.
                  Delivers-shift number p all (total p rest (deferred ++ m ∷ []) rounds)
                    (await number rounds rest (deferred ++ m ∷ [])) same
                    (await-Delivers number p rounds rest (deferred ++ m ∷ [])))))
    where
      all : ℕ
      all = total p queue deferred (new ∷ rounds)

  -- A call takes the next number for its request. It returns the result of a message that answers
  -- this number and has no error, raises for one that answers it and has an error, or for one that
  -- ends the transport, or times out. No message is lost or doubled: of any kind of messages, those
  -- that were in the queue or arrived meanwhile are afterwards in the queue or yet to arrive, or are
  -- the one message taken.
  pub call-Delivers :
      (params : P) (rounds : List (List (Message P))) (s : Server P) (p : Message P → Bool)
      → let (result, left, s') = call params rounds s in
        (s'.next_id ≡ suc s.next_id)
        × Answers s.next_id result
        × (count p s.messages + count p (arrivals rounds)
            ≡ count p s'.messages + count p (arrivals left) + count p (taken result))
  unfolding call request
  call-Delivers params rounds s p =
      let (kept, own) = await-Delivers s.next_id p rounds s.messages [] in
      (refl, own, omega (arith, kept))
