-- ===== src/Symtable/Rows10.antt =====
-- src/symtable.rs: the rows of lines 1302 to 1444.
use docsis_config_generator.Common.{List, [], ◌∷◌}
use docsis_config_generator.Symbol.{Symbol, Enc, Render}
use docsis_config_generator.Symtable.Row.{row}

abbrev pub rows10 : List Symbol
rows10 =
    row 671 "DACDisableEnableConfiguration" 16 615 Enc.uchar Render.uchar 0 1
    ∷ row 672 "PseudowireClass" 18 615 Enc.hexstr Render.hexstr 0 0
    ∷ row 673 "ServiceDelimiter" 19 615 Enc.nothing Render.aggregate 0 0
    ∷ row 674 "CVIDDelimiter" 1 673 Enc.hexstr Render.hexstr 2 2
    ∷ row 675 "SVIDDelimiter" 2 673 Enc.hexstr Render.hexstr 2 2
    ∷ row 676 "ISIDDelimiter" 3 673 Enc.hexstr Render.hexstr 3 3
    ∷ row 677 "BVIDDelimiter" 4 673 Enc.hexstr Render.hexstr 2 2
    ∷ row 678 "VirtualSwitchInstanceEncoding" 20 615 Enc.nothing Render.aggregate 0 0
    ∷ row 679 "VPLSClass" 1 678 Enc.hexstr Render.hexstr 0 0
    ∷ row 680 "ETreeRole" 2 678 Enc.uchar Render.uchar 0 1
    ∷ row 681 "ETreeRootVID" 3 678 Enc.hexstr Render.hexstr 2 2
    ∷ row 682 "ETreeLeafVID" 4 678 Enc.hexstr Render.hexstr 2 2
    ∷ row 652 "BGPAttribute" 21 615 Enc.nothing Render.aggregate 0 0
    ∷ row 653 "BGPVPNID" 1 652 Enc.uint Render.uint 0 0
    ∷ row 654 "RouteDistinguisher" 2 652 Enc.hexstr Render.hexstr 8 8
    ∷ row 655 "RouteTargetImport" 3 652 Enc.hexstr Render.hexstr 0 0
    ∷ row 656 "RouteTargetExport" 4 652 Enc.hexstr Render.hexstr 0 0
    ∷ row 657 "CEIDVEID" 5 652 Enc.ushort Render.ushort 0 0
    ∷ row 683 "PseudowireSignaling" 23 615 Enc.uchar Render.uchar 0 2
    ∷ row 684 "SOAMSubtype" 24 615 Enc.nothing Render.aggregate 0 0
    ∷ row 685 "MEPConfiguration" 1 684 Enc.nothing Render.aggregate 0 0
    ∷ row 686 "MDLevel" 1 685 Enc.uchar Render.uchar 0 7
    ∷ row 687 "MDName" 2 685 Enc.string Render.string 2 16
    ∷ row 688 "MAName" 3 685 Enc.string Render.string 2 28
    ∷ row 689 "MEPID" 4 685 Enc.ushort Render.ushort 1 8191
    ∷ row 690 "RemoteMEPConfiguration" 2 684 Enc.nothing Render.aggregate 0 0
    ∷ row 691 "RemoteMDLevel" 1 690 Enc.uchar Render.uchar 0 7
    ∷ row 692 "RemoteMDName" 2 690 Enc.string Render.string 2 16
    ∷ row 693 "RemoteMAName" 3 690 Enc.string Render.string 2 28
    ∷ row 694 "RemoteMEPID" 4 690 Enc.ushort Render.ushort 1 8191
    ∷ row 695 "FaultManagementConfiguration" 3 684 Enc.nothing Render.aggregate 0 0
    ∷ row 696 "ContinuityCheckMessages" 1 695 Enc.uchar Render.uchar 0 2
    ∷ row 697 "LoopbackFunction" 2 695 Enc.uchar Render.uchar 0 1
    ∷ row 698 "LinktraceFunction" 3 695 Enc.uchar Render.uchar 0 1
    ∷ row 699 "PerformanceManagementConfiguration" 4 684 Enc.nothing Render.aggregate 0 0
    ∷ row 700 "FrameDelayMeasurement" 1 699 Enc.nothing Render.aggregate 0 0
    ∷ row 701 "FrameDelayMeasurementEnable" 1 700 Enc.uchar Render.uchar 0 1
    ∷ row 702 "FrameDelayMeasurementOneWayTwoWay" 2 700 Enc.uchar Render.uchar 0 1
    ∷ row 703 "FrameDelayMeasurementTransmissionPeriodicity" 3 700 Enc.ushort Render.ushort 0 0
    ∷ row 704 "FrameLossMeasurement" 2 699 Enc.nothing Render.aggregate 0 0
    ∷ row 705 "FrameLossMeasurementEnable" 1 704 Enc.uchar Render.uchar 0 1
    ∷ row 706 "FrameLossMeasurementTransmissionPeriodicity" 2 704 Enc.uchar Render.uchar 0 0
    ∷ row 2070 "VPNSGAttribute" 22 615 Enc.string Render.string 1 16
    ∷ row 2071 "L2VPNNetworkTimingProfileReference" 25 615 Enc.ushort Render.ushort 0 65535
    ∷ row 707 "L2VPNDSID" 26 615 Enc.uint24 Render.uint24 1 1048575
    ∷ row 2072 "L2VPNMultipointForwardingMode" 27 615 Enc.uchar Render.uchar 0 1
    ∷ row 708 "VendorSpecificL2VPNSubtype" 43 615 Enc.nothing Render.aggregate 0 0
    ∷ row 709 "VendorIdentifier" 8 708 Enc.hexstr Render.hexstr 3 3
    ∷ row 710 "ExtendedCMTSMICConfigurationSetting" 6 609 Enc.nothing Render.aggregate 0 0
    ∷ row 711 "ExtendedCMTSMICHMACtype" 1 710 Enc.uchar Render.uchar 0 0
    ∷ row 712 "ExtendedCMTSMICBitmap" 2 710 Enc.hexstr Render.hexstr 0 0
    ∷ row 713 "ExplicitExtendedCMTSMICDigest" 3 710 Enc.hexstr Render.hexstr 0 0
    ∷ row 714 "SAVAuthorizationEncoding" 7 609 Enc.nothing Render.aggregate 0 0
    ∷ row 715 "SAVGroupName" 1 714 Enc.string Render.string 1 15
    ∷ row 716 "SAVStaticPrefixRule" 2 714 Enc.nothing Render.aggregate 0 0
    ∷ row 717 "SAVStaticPrefixAddress" 1 716 Enc.ip_ip6 Render.ip_ip6 0 0
    ∷ row 718 "SAVStaticPrefixLength" 2 716 Enc.uchar Render.uchar 0 0
    ∷ row 719 "VendorIdentifier" 8 609 Enc.hexstr Render.hexstr 3 3
    ∷ row 720 "CMAttributeMasks" 9 609 Enc.nothing Render.aggregate 0 0
    ∷ row 721 "CMDownstreamRequiredAttributeMask" 1 720 Enc.hexstr Render.hexstr 4 4
    ∷ row 722 "CMDownstreamForbiddenAttributeMask" 2 720 Enc.hexstr Render.hexstr 4 4
    ∷ row 723 "CMUpstreamRequiredAttributeMask" 3 720 Enc.hexstr Render.hexstr 4 4
    ∷ row 724 "CMUpstreamForbiddenAttributeMask" 4 720 Enc.hexstr Render.hexstr 4 4
    ∷ row 725 "IPMulticastJoinAuthorization" 10 609 Enc.nothing Render.aggregate 0 0
    ∷ row 726 "IPMulticastProfileName" 1 725 Enc.string Render.string 1 15
    ∷ row 727 "IPMulticastJoinAuthStaticSessionRule" 2 725 Enc.nothing Render.aggregate 0 0
    ∷ row 728 "MulticastRulePriority" 1 727 Enc.uchar Render.uchar 0 255
    ∷ row 729 "AuthorizationAction" 2 727 Enc.uchar Render.uchar 0 1
    ∷ row 730 "SourcePrefixAddress" 3 727 Enc.ip_ip6 Render.ip_ip6 0 0
    ∷ row 731 "SourcePrefixLength" 4 727 Enc.uchar Render.uchar 0 128
    ∷ row 732 "GroupPrefixAddress" 5 727 Enc.ip_ip6 Render.ip_ip6 0 0
    ∷ row 733 "GroupPrefixLength" 6 727 Enc.uchar Render.uchar 0 128
    ∷ row 734 "MaximumMulticastSessions" 3 725 Enc.ushort Render.ushort 0 0
    ∷ row 735 "ServiceTypeIdentifier" 11 609 Enc.string Render.string 1 16
    ∷ row 736 "DEMARCAutoConfiguration" 12 609 Enc.nothing Render.aggregate 0 0
    ∷ row 737 "DACDisableEnableConfig" 1 736 Enc.uchar Render.uchar 0 1
    ∷ row 738 "CMIMEncoding" 2 736 Enc.hexstr Render.hexstr 0 0
    ∷ row 739 "UpstreamServiceClassName" 3 736 Enc.strzero Render.strzero 2 16
    ∷ row 740 "DownstreamServiceClassName" 4 736 Enc.strzero Render.strzero 2 16
    ∷ row 528 "SubMgmtCPEIPv6PrefixList" 61 0 Enc.ip6_prefix_list Render.ip6_prefix_list 0 0
    ∷ row 529 "UpstreamDropClassifierGroupID" 62 0 Enc.char_list Render.char_list 0 0
    ∷ row 174 "SubMgmtControl6" 63 0 Enc.ushort Render.ushort 0 0
    ∷ row 341 "CMTSStaticMulticastSessionEncodings" 64 0 Enc.nothing Render.aggregate 0 0
    ∷ row 342 "CMTSStaticMulticastSessionGroup" 1 341 Enc.ip_ip6 Render.ip_ip6 0 0
    ∷ row 343 "CMTSStaticMulticastSessionSource" 2 341 Enc.ip_ip6 Render.ip_ip6 0 0
    ∷ row 344 "CMTSStaticMulticastSessionCMIM" 3 341 Enc.hexstr Render.hexstr 0 0
    ∷ row 526 "L2VPNMACAgingEncoding" 65 0 Enc.nothing Render.aggregate 0 0
    ∷ row 527 "L2VPNMACAgingMode" 1 526 Enc.uchar Render.uchar 0 1
    ∷ row 525 "ManagementEventControl" 66 0 Enc.uint Render.uint 0 0
    ∷ row 478 "SubscriberManagementCPEIPv6Table" 67 0 Enc.ip6_list Render.ip6_list 0 0
    ∷ row 513 "DefaultUpstreamTargetBuffer" 68 0 Enc.ushort Render.ushort 0 0
    ∷ row 514 "MACAddressLearningControlEncoding" 69 0 Enc.nothing Render.aggregate 0 0
    ∷ row 515 "MACAddressLearningControl" 1 514 Enc.uchar Render.uchar 0 1
    ∷ row 516 "MACAddressLearningHoldoffTimer" 2 514 Enc.uchar Render.uchar 0 10
    ∷ row 517 "UpstreamAggregateServiceFlow" 70 0 Enc.nothing Render.aggregate 0 0
    ∷ row 518 "UpstreamServiceFlowReference" 1 517 Enc.ushort Render.ushort 1 65535
    ∷ row 519 "ASFQoSProfileName" 4 517 Enc.strzero Render.strzero 2 16
    ∷ row 1446 "TrafficPriority" 7 517 Enc.uchar Render.uchar 0 7
    ∷ row 1447 "MaxRateSustained" 8 517 Enc.uint Render.uint 0 0
    ∷ row 1448 "MaxTrafficBurst" 9 517 Enc.uint Render.uint 0 0
    ∷ row 1449 "MinReservedRate" 10 517 Enc.uint Render.uint 0 0
    ∷ row 1450 "MinResPacketSize" 11 517 Enc.ushort Render.ushort 0 65535
    ∷ row 1451 "UpstreamPeakTrafficRate" 27 517 Enc.uint Render.uint 0 0
    ∷ row 520 "UpstreamMESPReference" 37 517 Enc.ushort Render.ushort 1 65535
    ∷ row 1452 "ServiceFlowMatchingCriteria" 38 517 Enc.nothing Render.aggregate 0 0
    ∷ row 1453 "MatchingbyApplicationId" 1 1452 Enc.uint Render.uint 0 1
    ∷ row 1454 "MatchingbyServiceClassName" 2 1452 Enc.strzero Render.strzero 2 16
    ∷ row 1455 "MatchingbyTrafficPriorityRange" 3 1452 Enc.char_list Render.char_list 2 2
    ∷ row 1456 "DataRateUnitSetting" 41 517 Enc.uchar Render.uchar 0 3
    ∷ row 1457 "LowLatencyAggregateSFEncodings" 42 517 Enc.nothing Render.aggregate 0 0
    ∷ row 1458 "LowLatencyServiceFlowReference" 1 1457 Enc.ushort Render.ushort 1 65535
    ∷ row 1459 "ClassicSFSCN" 3 1457 Enc.strzero Render.strzero 2 16
    ∷ row 1460 "LowLatencySFSCN" 4 1457 Enc.strzero Render.strzero 2 16
    ∷ row 1461 "AQMCouplingFactor" 5 1457 Enc.uchar Render.uchar 0 0
    ∷ row 1462 "SchedulingWeight" 6 1457 Enc.uchar Render.uchar 1 255
    ∷ row 1463 "QueueProtectionEnable" 7 1457 Enc.uchar Render.uchar 0 1
    ∷ row 1464 "QPLatencyThreshold" 8 1457 Enc.ushort Render.ushort 0 0
    ∷ row 1465 "QPQueuingScoreThreshold" 9 1457 Enc.ushort Render.ushort 0 0
    ∷ row 1466 "QPDrainRateExponent" 10 1457 Enc.uchar Render.uchar 0 0
    ∷ row 521 "DownstreamAggregateServiceFlow" 71 0 Enc.nothing Render.aggregate 0 0
    ∷ row 522 "DownstreamServiceFlowReference" 1 521 Enc.ushort Render.ushort 1 65535
    ∷ row 523 "ASFQoSProfileName" 4 521 Enc.strzero Render.strzero 2 16
    ∷ row 1467 "TrafficPriority" 7 521 Enc.uchar Render.uchar 0 7
    ∷ row 1468 "MaxRateSustained" 8 521 Enc.uint Render.uint 0 0
    ∷ row 1469 "MaxTrafficBurst" 9 521 Enc.uint Render.uint 0 0
    ∷ row 1470 "MinReservedRate" 10 521 Enc.uint Render.uint 0 0
    ∷ row 1471 "MinResPacketSize" 11 521 Enc.ushort Render.ushort 0 65535
    ∷ row 1472 "DownstreamPeakTrafficRate" 27 521 Enc.uint Render.uint 0 0
    ∷ row 524 "DownstreamMESPReference" 37 521 Enc.ushort Render.ushort 1 65535
    ∷ row 1473 "ServiceFlowMatchingCriteria" 38 521 Enc.nothing Render.aggregate 0 0
    ∷ row 1474 "MatchingbyApplicationId" 1 1473 Enc.uint Render.uint 0 1
    ∷ row 1475 "MatchingbyServiceClassName" 2 1473 Enc.strzero Render.strzero 2 16
    ∷ row 1476 "MatchingbyTrafficPriorityRange" 3 1473 Enc.char_list Render.char_list 2 2
    ∷ row 1477 "DataRateUnitSetting" 41 521 Enc.uchar Render.uchar 0 3
    ∷ row 1478 "LowLatencyAggregateSFEncodings" 42 521 Enc.nothing Render.aggregate 0 0
    ∷ row 1479 "LowLatencyServiceFlowReference" 1 1478 Enc.ushort Render.ushort 1 65535
    ∷ row 1480 "ClassicSFSCN" 3 1478 Enc.strzero Render.strzero 2 16
    ∷ row 1481 "LowLatencySFSCN" 4 1478 Enc.strzero Render.strzero 2 16
    ∷ row 1482 "AQMCouplingFactor" 5 1478 Enc.uchar Render.uchar 0 0
    ∷ row 1483 "SchedulingWeight" 6 1478 Enc.uchar Render.uchar 1 255
    ∷ row 1484 "QueueProtectionEnable" 7 1478 Enc.uchar Render.uchar 0 1
    ∷ row 1485 "QPLatencyThreshold" 8 1478 Enc.ushort Render.ushort 0 0
    ∷ row 1486 "QPQueuingScoreThreshold" 9 1478 Enc.ushort Render.ushort 0 0
    ∷ []
