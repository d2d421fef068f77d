-- ===== src/Com/Waits.antt =====
-- driver/src/comport.c, GcomComEvtIoctl: the wait mask and the waits on it (WaitCommEvent).
use ghostcom.Base.{Option, none, some, List, [], ◌∷◌, ◌++◌}
use ghostcom.Status.{success}
use ghostcom.Bytes.{put32, get32}
use ghostcom.Wdf.{Wdf, Completion, complete}
use ghostcom.Pair.{PortPair}
use ghostcom.Changed.{changed_wait_mask}
use ghostcom.Signal.{signal_changed}
use ghostcom.Buffers.{with_input, with_output}
use ghostcom.Transfer.{pend, put_back}

module _ (wdf : Wdf) where
  open wdf use {Request, Queue, purge, start}

  -- A queue is purged if it is there; GcomQueuePurgeComplete starts it again.
  unfoldable pub purge_queue : Option Queue → Option Queue
  purge_queue none = none
  purge_queue (some queue) = some (start (purge queue))

  -- IOCTL_SERIAL_SET_WAIT_MASK
  unfoldable pub set_wait_mask :
      PortPair Queue → Request → PortPair Queue × List (Completion Request)
  set_wait_mask pp request =
      with_input wdf 4
        (λ bytes.
          let masked = record pp {
            signal_state = record (pp.signal_state) { wait_mask = get32 bytes 0 };
            wait_mask_queue = purge_queue pp.wait_mask_queue;
          } in
          let (pp', told) = signal_changed wdf masked changed_wait_mask in
          (pp', told ++ (complete request success ∷ [])))
        pp request

  -- IOCTL_SERIAL_GET_WAIT_MASK
  unfoldable pub get_wait_mask :
      PortPair Queue → Request → PortPair Queue × List (Completion Request)
  get_wait_mask pp request = with_output wdf (put32 pp.signal_state.wait_mask []) pp request

  -- IOCTL_SERIAL_WAIT_ON_MASK
  unfoldable pub wait_on_mask :
      PortPair Queue → Request → Option (PortPair Queue × List (Completion Request))
  wait_on_mask pp request =
      put_back wdf (λ queue. record pp { wait_mask_queue = queue })
        (pend wdf request pp.wait_mask_queue)
