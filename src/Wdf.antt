-- ===== src/Wdf.antt =====
-- What the driver uses of the Windows Driver Framework's requests and manual queues, as an
-- interface. The laws are the documented behaviour that the driver relies on.
use ghostcom.Base.{
  ℕ, ◌^◌, ◌≤◌, ◌<◌, ◌≡◌, refl, List, [], ◌∷◌, ◌++◌, Option, none, some, true, false,
}
use ghostcom.Base.{length, take, ◌⊎◌, inl, inr, ap, sym, ◌∙◌, append_assoc}
use ghostcom.Status.{Status, nt_success}

pub record Wdf : Type 1 where
  pub Request : Type 0
  pub Queue : Type 0
  -- The requests that a queue holds, oldest first.
  pub pending : Queue → List Request
  -- WdfRequestRetrieveOutputBuffer and WdfRequestRetrieveInputBuffer, at a smallest length: the
  -- length of the output buffer, and the bytes of the input buffer.
  pub output_buffer : Request → ℕ → Status × ℕ
  pub input_buffer : Request → ℕ → Status × List ℕ
  -- WdfIoQueueRetrieveNextRequest (`none` is a failure), WdfRequestForwardToIoQueue,
  -- WdfIoQueuePurge and WdfIoQueueStart.
  pub retrieve_next : Queue → Option (Request × Queue)
  pub forward : Request → Queue → Status × Queue
  pub purge : Queue → Queue
  pub start : Queue → Queue
  -- A buffer that is returned is as long as was asked for, and its length is a ULONG.
  pub output_length :
      (r : Request) (m : ℕ)
      → nt_success (output_buffer r m).0 ≡ true
      → (m ≤ (output_buffer r m).1) × ((output_buffer r m).1 < 2 ^ 32)
  pub input_length :
      (r : Request) (m : ℕ)
      → nt_success (input_buffer r m).0 ≡ true
      → (m ≤ length (input_buffer r m).1) × (length (input_buffer r m).1 < 2 ^ 32)
  -- A queue gives its requests first in, first out.
  pub retrieve_empty : (q : Queue) → pending q ≡ [] → retrieve_next q ≡ none
  pub retrieve_first :
      (q : Queue) (r : Request) (rest : List Request)
      → pending q ≡ r ∷ rest
      → (q' : Queue) × (retrieve_next q ≡ some (r, q')) × (pending q' ≡ rest)
  -- A request that is forwarded goes to the end; where forwarding fails the queue stays.
  pub forward_ok :
      (r : Request) (q : Queue)
      → nt_success (forward r q).0 ≡ true
      → pending (forward r q).1 ≡ pending q ++ (r ∷ [])
  pub forward_failed :
      (r : Request) (q : Queue)
      → nt_success (forward r q).0 ≡ false
      → pending (forward r q).1 ≡ pending q
  -- A purge cancels what is pending; a start lets the queue take requests again.
  pub purge_empty : (q : Queue) → pending (purge q) ≡ []
  pub start_pending : (q : Queue) → pending (start q) ≡ pending q

-- A call of WdfRequestComplete or WdfRequestCompleteWithInformation, with what the handler has
-- written to the output buffer, if it has.
pub record Completion (Request : Type 0) : Type 0 where
  pub request : Request
  pub status : Status
  pub info : ℕ
  pub output : Option (List ℕ)

-- WdfRequestComplete
abbrev pub complete : {Request : Type 0} → Request → Status → Completion Request
complete r st = record { request = r; status = st; info = 0; output = none }

-- WdfRequestCompleteWithInformation, with no output or with bytes in the output buffer.
abbrev pub complete_count : {Request : Type 0} → Request → Status → ℕ → Completion Request
complete_count r st n = record { request = r; status = st; info = n; output = none }

abbrev pub complete_bytes : {Request : Type 0} → Request → Status → ℕ → List ℕ → Completion Request
complete_bytes r st n bytes = record { request = r; status = st; info = n; output = some bytes }

abbrev pub requests : {Request : Type 0} → List (Completion Request) → List Request
requests [] = []
requests (c ∷ cs) = c.request ∷ requests cs

-- The bytes that go out to readers, in the order of completion.
abbrev pub output_bytes : Option (List ℕ) → List ℕ
output_bytes none = []
output_bytes (some bytes) = bytes

abbrev pub received : {Request : Type 0} → List (Completion Request) → List ℕ
received [] = []
received (c ∷ cs) = output_bytes c.output ++ received cs

module _ {Request : Type 0} where
  pub requests-append :
      (a b : List (Completion Request)) → requests (a ++ b) ≡ requests a ++ requests b
  requests-append [] b = refl
  requests-append (c ∷ a) b = ap (λ t. c.request ∷ t) (requests-append a b)

  pub received-append :
      (a b : List (Completion Request)) → received (a ++ b) ≡ received a ++ received b
  received-append [] b = refl
  received-append (c ∷ a) b =
      ap (λ t. output_bytes c.output ++ t) (received-append a b)
      ∙ sym (append_assoc (output_bytes c.output) (received a) (received b))

module _ (wdf : Wdf) where
  open wdf use {Request, Queue, pending, retrieve_next, input_buffer}

  -- What the queue behind a handle holds; NULL holds nothing.
  abbrev pub held : Option Queue → List Request
  held none = []
  held (some queue) = pending queue

  -- A queue is empty and gives no request, or gives its first one.
  pub queue_cases :
      (q : Queue)
      → ((pending q ≡ []) × (retrieve_next q ≡ none))
        ⊎ ((r : Request) × (q' : Queue) × (retrieve_next q ≡ some (r, q'))
            × (pending q ≡ r ∷ pending q'))
  queue_cases q = go (pending q) refl
    where
      go :
          (l : List Request)
          → pending q ≡ l
          → ((pending q ≡ []) × (retrieve_next q ≡ none))
            ⊎ ((r : Request) × (q' : Queue) × (retrieve_next q ≡ some (r, q'))
                × (pending q ≡ r ∷ pending q'))
      go [] e = inl (e, wdf.retrieve_empty q e)
      go (r ∷ rest) e =
          let (q', next, left) = wdf.retrieve_first q r rest e in
          inr (r, q', next, e ∙ ap (λ t. r ∷ t) (sym left))

  -- The bytes that a completed write has put in: the first `info` bytes of its input buffer.
  abbrev pub accepted_from : Option (List ℕ) → Request → ℕ → List ℕ
  accepted_from none r n = take n (input_buffer r 1).1
  accepted_from (some bytes) r n = []

  abbrev pub accepted : List (Completion Request) → List ℕ
  accepted [] = []
  accepted (c ∷ cs) = accepted_from c.output c.request c.info ++ accepted cs

  pub accepted-append :
      (a b : List (Completion Request)) → accepted (a ++ b) ≡ accepted a ++ accepted b
  accepted-append [] b = refl
  accepted-append (c ∷ a) b =
      ap (λ t. accepted_from c.output c.request c.info ++ t) (accepted-append a b)
      ∙ sym (append_assoc (accepted_from c.output c.request c.info) (accepted a) (accepted b))
