-- ===== src/Winrm/Collector.antt =====
-- plugin/windows-winrm/collector/collector.go: the collectors. encoding/json and ToLower are arguments
-- (`Parsers`).
use nmslite.Common.{◌==◌, true, List, [], ◌∷◌, ◌++◌, if◌then◌else◌}
use nmslite.Common.Results.{Result, ok, err, ◌>>=◌}
use nmslite.Protocols.Schemas.{codes}
use nmslite.Auth.Middleware.{same_bytes}
use nmslite.Winrm.{Text, Floats, Metric}
use nmslite.Winrm.Client.{Library}
use nmslite.Winrm.Names.{sanitize_interface_name}
use nmslite.Winrm.Wmi.{
  CpuData, MemoryData, DiskData, NetworkData, Parsers, CollectError, no_memory_data, all_failed,
  execute_wmi_query,
}

module _ (f : Floats) (p : Parsers) where
  open f use {Float, of_uint, plus, minus, times, over, is_positive}

  abbrev pub Metrics : Type 0
  Metrics = List (Metric Float)

  abbrev pub gauge : Text → Float → Metric Float
  gauge name value = record { name = name; value = value; kind = codes "gauge" }

  -- The loop of CollectCPU.
  unfoldable cpu_metrics : List CpuData → Metrics
  unfolding same_bytes
  cpu_metrics [] = []
  cpu_metrics (cpu ∷ rest) =
      gauge
        (if same_bytes cpu.name (codes "_Total")
          then codes "system.cpu.usage"
          else codes "system.cpu." ++ cpu.name ++ codes ".usage")
        (of_uint cpu.percent_processor_time)
      ∷ cpu_metrics rest

  -- used and usage, of a total and what is free
  abbrev usage : Float → Float → Float
  usage total used = times (over used total) (of_uint 100)

  -- The four gauges of some memory or disk.
  abbrev pub gauges : Text → Float → Float → Metrics
  gauges prefix total free =
      let used = minus total free in
      gauge (prefix ++ codes ".total_bytes") total
      ∷ gauge (prefix ++ codes ".used_bytes") used
      ∷ gauge (prefix ++ codes ".free_bytes") free
      ∷ gauge (prefix ++ codes ".usage_percent") (usage total used)
      ∷ []

  unfoldable memory_metrics : List MemoryData → Result CollectError Metrics
  memory_metrics [] = err no_memory_data
  memory_metrics (mem ∷ rest) = ok (
      gauges (codes "system.memory") (times (of_uint mem.total_visible_memory_size) (of_uint 1024))
        (times (of_uint mem.free_physical_memory) (of_uint 1024)))

  -- strings.TrimSuffix of a colon
  unfoldable pub trim_colon : Text → Text
  trim_colon [] = []
  trim_colon (c ∷ []) = if c == b':' then [] else c ∷ []
  trim_colon (c ∷ d ∷ t) = c ∷ trim_colon (d ∷ t)

  -- The metrics and the two aggregates of a loop.
  pub record Disks : Type 0 where
    pub metrics : Metrics
    pub total : Float
    pub free : Float

  abbrev pub add_disk : DiskData → Disks → Disks
  add_disk disk d = record {
    metrics =
        d.metrics
        ++ gauges (codes "system.disk." ++ p.to_lower (trim_colon disk.device_id))
            (of_uint disk.size) (of_uint disk.free_space);
    total = plus d.total (of_uint disk.size);
    free = plus d.free (of_uint disk.free_space);
  }

  -- The loop of CollectDisk.
  unfoldable pub disk_loop : List DiskData → Disks → Disks
  unfolding trim_colon
  disk_loop [] d = d
  disk_loop (disk ∷ rest) d = disk_loop rest (if disk.size == 0 then d else add_disk disk d)

  abbrev pub disk_totals : Disks → Metrics
  disk_totals d =
      if is_positive d.total
      then d.metrics ++ gauges (codes "system.disk") d.total d.free
      else d.metrics

  unfoldable pub disk_metrics : List DiskData → Metrics
  unfolding disk_loop
  disk_metrics disks =
      disk_totals (disk_loop disks (record { metrics = []; total = of_uint 0; free = of_uint 0 }))

  record Networks : Type 0 where
    pub metrics : Metrics
    pub received : Float
    pub sent : Float
    pub bandwidth : Float

  abbrev bandwidth_gauge : Text → Float → Metrics
  bandwidth_gauge name speed = if is_positive speed then gauge name speed ∷ [] else []

  -- bits to bytes
  abbrev link_speed : NetworkData → Float
  link_speed net = over (of_uint net.current_bandwidth) (of_uint 8)

  abbrev interface_metrics : NetworkData → Metrics
  interface_metrics net =
      let prefix = codes "network." ++ sanitize_interface_name net.name in
      gauge (prefix ++ codes ".bytes_recv_per_sec") (of_uint net.bytes_received_persec)
      ∷ gauge (prefix ++ codes ".bytes_sent_per_sec") (of_uint net.bytes_sent_persec)
      ∷ bandwidth_gauge (prefix ++ codes ".bandwidth_bytes") (link_speed net)

  -- The loop of CollectNetwork.
  unfoldable network_loop : List NetworkData → Networks → Networks
  unfolding sanitize_interface_name
  network_loop [] n = n
  network_loop (net ∷ rest) n = network_loop rest (record {
    metrics = n.metrics ++ interface_metrics net;
    received = plus n.received (of_uint net.bytes_received_persec);
    sent = plus n.sent (of_uint net.bytes_sent_persec);
    bandwidth = plus n.bandwidth (link_speed net);
  })

  abbrev network_totals : Networks → Metrics
  network_totals n =
      n.metrics
      ++ gauge (codes "network.bytes_recv_per_sec") n.received
        ∷ gauge (codes "network.bytes_sent_per_sec") n.sent
        ∷ bandwidth_gauge (codes "network.bandwidth_bytes") n.bandwidth

  unfoldable network_metrics : List NetworkData → Metrics
  unfolding network_loop
  network_metrics nets = network_totals (
      network_loop nets
        (record { metrics = []; received = of_uint 0; sent = of_uint 0; bandwidth = of_uint 0 }))

  module _ (l : Library) where
    -- CollectCPU
    unfoldable pub collect_cpu : l.Connection → Result CollectError Metrics
    unfolding execute_wmi_query cpu_metrics
    collect_cpu client = do
      rows ←
          execute_wmi_query l p.cpu client
            (codes
              "Get-WmiObject Win32_PerfFormattedData_PerfOS_Processor | Select-Object Name, PercentProcessorTime | ConvertTo-Json -Compress")
            true
      ok (cpu_metrics rows)

    -- CollectMemory
    unfoldable pub collect_memory : l.Connection → Result CollectError Metrics
    unfolding execute_wmi_query memory_metrics
    collect_memory client = do
      rows ←
          execute_wmi_query l p.memory client
            (codes
              "Get-WmiObject Win32_OperatingSystem | Select-Object TotalVisibleMemorySize, FreePhysicalMemory | ConvertTo-Json -Compress")
            true
      memory_metrics rows

    -- CollectDisk
    unfoldable pub collect_disk : l.Connection → Result CollectError Metrics
    unfolding execute_wmi_query disk_metrics
    collect_disk client = do
      rows ←
          execute_wmi_query l p.disk client
            (codes "Get-WmiObject Win32_LogicalDisk -Filter "
              ++ b'"' ∷ codes "DriveType=3"
              ++ b'"'
                ∷ codes " | Select-Object DeviceID, Size, FreeSpace | ConvertTo-Json -Compress")
            true
      ok (disk_metrics rows)

    -- CollectNetwork
    unfoldable pub collect_network : l.Connection → Result CollectError Metrics
    unfolding execute_wmi_query network_metrics
    collect_network client = do
      rows ←
          execute_wmi_query l p.network client
            (codes
              "Get-WmiObject Win32_PerfFormattedData_Tcpip_NetworkInterface | Select-Object Name, BytesReceivedPersec, BytesSentPersec, CurrentBandwidth | ConvertTo-Json -Compress")
            true
      ok (network_metrics rows)

    -- The metrics and the failures so far.
    abbrev pub gather :
        Text → Result CollectError Metrics → Metrics × List Text → Metrics × List Text
    gather name (ok ms) (metrics, errors) = (metrics ++ ms, errors)
    gather name (err e) (metrics, errors) = (metrics, errors ++ name ∷ [])

    abbrev pub verdict : Metrics × List Text → Result CollectError Metrics
    verdict ([], e ∷ es) = err (all_failed (e ∷ es))
    verdict (metrics, errors) = ok metrics

    -- Collect
    unfoldable pub collect : l.Connection → Result CollectError Metrics
    collect client = verdict (
        gather (codes "network") (collect_network client) (
          gather (codes "disk") (collect_disk client) (
            gather (codes "memory") (collect_memory client)
              (gather (codes "cpu") (collect_cpu client) ([], [])))))
