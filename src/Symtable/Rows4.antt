-- ===== src/Symtable/Rows4.antt =====
-- src/symtable.rs: the rows of lines 444 to 586.
use docsis_config_generator.Common.{List, [], ◌∷◌}
use docsis_config_generator.Symbol.{Symbol, Enc, Render}
use docsis_config_generator.Symtable.Row.{row}

abbrev pub rows4 : List Symbol
rows4 =
    row 839 "RemoteMAName" 3 836 Enc.string Render.string 2 28
    ∷ row 840 "RemoteMEPID" 4 836 Enc.ushort Render.ushort 1 8191
    ∷ row 841 "FaultManagementConfiguration" 3 830 Enc.nothing Render.aggregate 0 0
    ∷ row 842 "ContinuityCheckMessages" 1 841 Enc.uchar Render.uchar 0 2
    ∷ row 843 "LoopbackFunction" 2 841 Enc.uchar Render.uchar 0 1
    ∷ row 844 "LinktraceFunction" 3 841 Enc.uchar Render.uchar 0 1
    ∷ row 845 "PerformanceManagementConfiguration" 4 830 Enc.nothing Render.aggregate 0 0
    ∷ row 846 "FrameDelayMeasurement" 1 845 Enc.nothing Render.aggregate 0 0
    ∷ row 847 "FrameDelayMeasurementEnable" 1 846 Enc.uchar Render.uchar 0 1
    ∷ row 848 "FrameDelayMeasurementOneWayTwoWay" 2 846 Enc.uchar Render.uchar 0 1
    ∷ row 849 "FrameDelayMeasurementTransmissionPeriodicity" 3 846 Enc.ushort Render.ushort 0 0
    ∷ row 850 "FrameLossMeasurement" 2 845 Enc.nothing Render.aggregate 0 0
    ∷ row 851 "FrameLossMeasurementEnable" 1 850 Enc.uchar Render.uchar 0 1
    ∷ row 852 "FrameLossMeasurementTransmissionPeriodicity" 2 850 Enc.uchar Render.uchar 0 0
    ∷ row 2020 "VPNSGAttribute" 22 761 Enc.string Render.string 1 16
    ∷ row 2021 "L2VPNNetworkTimingProfileReference" 25 761 Enc.ushort Render.ushort 0 65535
    ∷ row 853 "L2VPNDSID" 26 761 Enc.uint24 Render.uint24 1 1048575
    ∷ row 2022 "L2VPNMultipointForwardingMode" 27 761 Enc.uchar Render.uchar 0 1
    ∷ row 854 "VendorSpecificL2VPNSubtype" 43 761 Enc.nothing Render.aggregate 0 0
    ∷ row 206 "VendorIdentifier" 8 854 Enc.hexstr Render.hexstr 3 3
    ∷ row 855 "ExtendedCMTSMICConfigurationSetting" 6 204 Enc.nothing Render.aggregate 0 0
    ∷ row 856 "ExtendedCMTSMICHMACtype" 1 855 Enc.uchar Render.uchar 0 0
    ∷ row 857 "ExtendedCMTSMICBitmap" 2 855 Enc.hexstr Render.hexstr 0 0
    ∷ row 858 "ExplicitExtendedCMTSMICDigest" 3 855 Enc.hexstr Render.hexstr 0 0
    ∷ row 859 "SAVAuthorizationEncoding" 7 204 Enc.nothing Render.aggregate 0 0
    ∷ row 860 "SAVGroupName" 1 859 Enc.string Render.string 1 15
    ∷ row 861 "SAVStaticPrefixRule" 2 859 Enc.nothing Render.aggregate 0 0
    ∷ row 862 "SAVStaticPrefixAddress" 1 861 Enc.ip_ip6 Render.ip_ip6 0 0
    ∷ row 863 "SAVStaticPrefixLength" 2 861 Enc.uchar Render.uchar 0 0
    ∷ row 864 "VendorIdentifier" 8 204 Enc.hexstr Render.hexstr 3 3
    ∷ row 865 "CMAttributeMasks" 9 204 Enc.nothing Render.aggregate 0 0
    ∷ row 866 "CMDownstreamRequiredAttributeMask" 1 865 Enc.hexstr Render.hexstr 4 4
    ∷ row 867 "CMDownstreamForbiddenAttributeMask" 2 865 Enc.hexstr Render.hexstr 4 4
    ∷ row 868 "CMUpstreamRequiredAttributeMask" 3 865 Enc.hexstr Render.hexstr 4 4
    ∷ row 869 "CMUpstreamForbiddenAttributeMask" 4 865 Enc.hexstr Render.hexstr 4 4
    ∷ row 870 "IPMulticastJoinAuthorization" 10 204 Enc.nothing Render.aggregate 0 0
    ∷ row 871 "IPMulticastProfileName" 1 870 Enc.string Render.string 1 15
    ∷ row 872 "IPMulticastJoinAuthStaticSessionRule" 2 870 Enc.nothing Render.aggregate 0 0
    ∷ row 873 "MulticastRulePriority" 1 872 Enc.uchar Render.uchar 0 255
    ∷ row 874 "AuthorizationAction" 2 872 Enc.uchar Render.uchar 0 1
    ∷ row 875 "SourcePrefixAddress" 3 872 Enc.ip_ip6 Render.ip_ip6 0 0
    ∷ row 876 "SourcePrefixLength" 4 872 Enc.uchar Render.uchar 0 128
    ∷ row 877 "GroupPrefixAddress" 5 872 Enc.ip_ip6 Render.ip_ip6 0 0
    ∷ row 878 "GroupPrefixLength" 6 872 Enc.uchar Render.uchar 0 128
    ∷ row 879 "MaximumMulticastSessions" 3 870 Enc.ushort Render.ushort 0 0
    ∷ row 880 "ServiceTypeIdentifier" 11 204 Enc.string Render.string 1 16
    ∷ row 881 "DEMARCAutoConfiguration" 12 204 Enc.nothing Render.aggregate 0 0
    ∷ row 882 "DACDisableEnableConfig" 1 881 Enc.uchar Render.uchar 0 1
    ∷ row 883 "CMIMEncoding" 2 881 Enc.hexstr Render.hexstr 0 0
    ∷ row 884 "UpstreamServiceClassName" 3 881 Enc.strzero Render.strzero 2 16
    ∷ row 885 "DownstreamServiceClassName" 4 881 Enc.strzero Render.strzero 2 16
    ∷ row 80 "UsServiceFlow" 24 0 Enc.nothing Render.aggregate 0 0
    ∷ row 81 "UsServiceFlowRef" 1 80 Enc.ushort Render.ushort 1 65535
    ∷ row 82 "UsServiceFlowId" 2 80 Enc.uint Render.uint 1 4294967295
    ∷ row 614 "ServiceIdentifier" 3 80 Enc.ushort Render.ushort 0 0
    ∷ row 83 "ServiceClassName" 4 80 Enc.strzero Render.strzero 2 16
    ∷ row 84 "QosParamSetType" 6 80 Enc.uchar Render.uchar 0 255
    ∷ row 85 "TrafficPriority" 7 80 Enc.uchar Render.uchar 0 7
    ∷ row 86 "MaxRateSustained" 8 80 Enc.uint Render.uint 0 0
    ∷ row 87 "MaxTrafficBurst" 9 80 Enc.uint Render.uint 0 0
    ∷ row 88 "MinReservedRate" 10 80 Enc.uint Render.uint 0 0
    ∷ row 89 "MinResPacketSize" 11 80 Enc.ushort Render.ushort 0 65535
    ∷ row 90 "ActQosParamsTimeout" 12 80 Enc.ushort Render.ushort 0 65535
    ∷ row 91 "AdmQosParamsTimeout" 13 80 Enc.ushort Render.ushort 0 65535
    ∷ row 92 "MaxConcatenatedBurst" 14 80 Enc.ushort Render.ushort 0 65535
    ∷ row 93 "SchedulingType" 15 80 Enc.uchar Render.uchar 0 6
    ∷ row 94 "RequestOrTxPolicy" 16 80 Enc.hexstr Render.hexstr 4 4
    ∷ row 95 "NominalPollInterval" 17 80 Enc.uint Render.uint 0 0
    ∷ row 96 "ToleratedPollJitter" 18 80 Enc.uint Render.uint 0 0
    ∷ row 97 "UnsolicitedGrantSize" 19 80 Enc.ushort Render.ushort 0 65535
    ∷ row 98 "NominalGrantInterval" 20 80 Enc.uint Render.uint 0 0
    ∷ row 99 "ToleratedGrantJitter" 21 80 Enc.uint Render.uint 0 0
    ∷ row 100 "GrantsPerInterval" 22 80 Enc.uchar Render.uchar 0 127
    ∷ row 101 "IpTosOverwrite" 23 80 Enc.hexstr Render.hexstr 2 2
    ∷ row 741 "MultipliertoNumberofBytesRequested" 26 80 Enc.uchar Render.uchar 1 16
    ∷ row 742 "UpstreamPeakTrafficRate" 27 80 Enc.uint Render.uint 0 0
    ∷ row 743 "ServiceFlowRequiredAttributeMask" 31 80 Enc.hexstr Render.hexstr 4 4
    ∷ row 744 "ServiceFlowForbiddenAttributeMask" 32 80 Enc.hexstr Render.hexstr 4 4
    ∷ row 745 "ServiceFlowAttributeAggregationRuleMask" 33 80 Enc.hexstr Render.hexstr 4 4
    ∷ row 746 "ApplicationIdentifier" 34 80 Enc.uint Render.uint 0 0
    ∷ row 747 "BufferControl" 35 80 Enc.nothing Render.aggregate 0 0
    ∷ row 748 "MinimumBuffer" 1 747 Enc.uint Render.uint 0 4294967295
    ∷ row 749 "TargetBuffer" 2 747 Enc.uint Render.uint 0 4294967295
    ∷ row 750 "MaximumBuffer" 3 747 Enc.uint Render.uint 0 4294967295
    ∷ row 751 "UpstreamAggregateServiceFlowReference" 36 80 Enc.ushort Render.ushort 1 65535
    ∷ row 752 "UpstreamMESPReference" 37 80 Enc.ushort Render.ushort 1 65535
    ∷ row 1440 "SFtoIATCProfileNameReference" 39 80 Enc.strzero Render.strzero 2 16
    ∷ row 753 "AQMEncodings" 40 80 Enc.nothing Render.aggregate 0 0
    ∷ row 754 "SFAQMDisable" 1 753 Enc.uchar Render.uchar 0 1
    ∷ row 755 "SFAQMLatencyTarget" 2 753 Enc.uchar Render.uchar 0 255
    ∷ row 1431 "AQMAlgorithm" 3 753 Enc.uchar Render.uchar 0 2
    ∷ row 1432 "ImmediateAQMMaxThreshold" 4 753 Enc.ushort Render.ushort 0 0
    ∷ row 1433 "ImmediateAQMRangeExponent" 5 753 Enc.uchar Render.uchar 0 25
    ∷ row 1434 "LatencyHistogramEncodings" 6 753 Enc.ushort_list Render.ushort_list 1 15
    ∷ row 756 "DataRateUnitSetting" 41 80 Enc.uchar Render.uchar 0 3
    ∷ row 205 "VendorSpecific" 43 80 Enc.nothing Render.aggregate 0 0
    ∷ row 207 "CMLoadBalancingPolicyID" 1 205 Enc.uint Render.uint 0 0
    ∷ row 192 "CMLoadBalancingPriority" 2 205 Enc.uint Render.uint 0 0
    ∷ row 193 "CMLoadBalancingGroupID" 3 205 Enc.uint Render.uint 0 0
    ∷ row 194 "CMRangingClassIDExtension" 4 205 Enc.ushort Render.ushort 0 0
    ∷ row 195 "L2VPNEncoding" 5 205 Enc.nothing Render.aggregate 0 0
    ∷ row 886 "VPNIdentifier" 1 195 Enc.hexstr Render.hexstr 4 255
    ∷ row 887 "NSIEncapsulation" 2 195 Enc.nothing Render.aggregate 0 0
    ∷ row 888 "ServiceMultiplexingValueOther" 1 887 Enc.lenzero Render.lenzero 0 0
    ∷ row 889 "NSIEncapsulationSingleQTag" 2 887 Enc.ushort Render.ushort 0 4096
    ∷ row 890 "NSIEncapsulationDualQTag" 3 887 Enc.dual_qtag Render.dual_qtag 0 0
    ∷ row 891 "ServiceMultiplexingValueMPLSPW" 4 887 Enc.nothing Render.aggregate 0 0
    ∷ row 892 "MPLSPseudowireID" 1 891 Enc.uint Render.uint 0 0
    ∷ row 893 "MPLSPeerIpAddress" 2 891 Enc.char_ip_ip6 Render.char_ip_ip6 0 0
    ∷ row 894 "MPLSPseudowireType" 3 891 Enc.uchar Render.uchar 0 0
    ∷ row 895 "MPLSBackupPseudowireID" 4 891 Enc.uint Render.uint 0 0
    ∷ row 896 "MPLSBackupPeerIpAddress" 5 891 Enc.char_ip_ip6 Render.char_ip_ip6 0 0
    ∷ row 897 "ServiceMultiplexingValueL2TPv3Peer" 5 887 Enc.char_ip_ip6 Render.char_ip_ip6 0 0
    ∷ row 898 "IEEE8021ahEncapsulation" 6 887 Enc.nothing Render.aggregate 0 0
    ∷ row 899 "ITCIEncapsulation" 1 898 Enc.hexstr Render.hexstr 4 4
    ∷ row 900 "BDAEncapsulation" 2 898 Enc.hexstr Render.hexstr 6 6
    ∷ row 901 "BTCIEncapsulation" 3 898 Enc.hexstr Render.hexstr 2 2
    ∷ row 902 "ITPIDEncapsulation" 4 898 Enc.hexstr Render.hexstr 2 2
    ∷ row 903 "IPCPEncapsulation" 5 898 Enc.hexstr Render.hexstr 1 1
    ∷ row 904 "IDEIEncapsulation" 6 898 Enc.hexstr Render.hexstr 1 1
    ∷ row 905 "IUCAEncapsulation" 7 898 Enc.hexstr Render.hexstr 1 1
    ∷ row 906 "ISIDEncapsulation" 8 898 Enc.hexstr Render.hexstr 3 3
    ∷ row 907 "BTPIDEncapsulation" 9 898 Enc.hexstr Render.hexstr 2 2
    ∷ row 908 "BPCPEncapsulation" 10 898 Enc.hexstr Render.hexstr 1 1
    ∷ row 909 "BDEIEncapsulation" 11 898 Enc.hexstr Render.hexstr 1 1
    ∷ row 910 "BVIDEncapsulation" 12 898 Enc.hexstr Render.hexstr 2 2
    ∷ row 911 "ServiceMultiplexingValueIEEE8021adSTPID" 8 887 Enc.hexstr Render.hexstr 2 2
    ∷ row 912 "eSAFEDHCPSnooping" 3 195 Enc.hexstr Render.hexstr 0 0
    ∷ row 913 "CMInterfaceMaskCMIMSubtype" 4 195 Enc.hexstr Render.hexstr 0 0
    ∷ row 914 "AttachmentGroupID" 5 195 Enc.hexstr Render.hexstr 0 0
    ∷ row 915 "SourceAttachmentIndividualID" 6 195 Enc.hexstr Render.hexstr 0 0
    ∷ row 916 "TargetAttachmentIndividualID" 7 195 Enc.hexstr Render.hexstr 0 0
    ∷ row 917 "IngressUserPriority" 8 195 Enc.uchar Render.uchar 0 7
    ∷ row 918 "UserPriorityRange" 9 195 Enc.char_list Render.char_list 0 0
    ∷ row 919 "L2VPNSADescriptorSubtype" 10 195 Enc.hexstr Render.hexstr 14 14
    ∷ row 920 "PseudowireType" 12 195 Enc.uchar Render.uchar 4 5
    ∷ row 921 "L2VPNMode" 13 195 Enc.uchar Render.uchar 0 1
    ∷ row 922 "TPIDTranslation" 14 195 Enc.nothing Render.aggregate 0 0
    ∷ row 923 "UpstreamTPIDTranslation" 1 922 Enc.hexstr Render.hexstr 2 2
    ∷ row 924 "DownstreamTPIDTranslation" 2 922 Enc.hexstr Render.hexstr 2 2
    ∷ row 925 "UpstreamSTPIDTranslation" 3 922 Enc.hexstr Render.hexstr 2 2
    ∷ row 926 "DownstreamSTPIDTranslation" 4 922 Enc.hexstr Render.hexstr 2 2
    ∷ row 927 "UpstreamBTPIDTranslation" 5 922 Enc.hexstr Render.hexstr 2 2
    ∷ []
